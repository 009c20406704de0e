-- ===== src/Inbox/NoteUpdates.antt =====
-- src/backend/lib/inbound-note-update-order.ts: edits of remote notes, admitted in order, kept for a
-- bounded window and committed with the object. A batch under a guard is one atomic step; the URL
-- parser and the JSON text of a patch are arguments.
pub mod Admitting
pub mod Commits
pub mod Bounds
use yurucommu_core.Base.{
  ℕ, zero, suc, ◌+◌, ◌-◌, max, Bool, true, false, not, ◌&&◌, ◌||◌, Option, none, some, List, [],
  ◌∷◌, ◌++◌, map, JsString, js, str_eq, if◌then◌else◌, ltb, leb, ◌==◌, length, take, any, filter,
  find, get_or_else,
}
use yurucommu_core.Ssrf.Urls.{Url, is_empty}
use yurucommu_core.Ssrf.Text.{ends_with}

-- A row of `inbound_note_update_events`.
pub record Event : Type 0 where
  pub sequence : ℕ
  pub activity_ap_id : JsString
  pub actor_ap_id : JsString
  pub object_ap_id : JsString
  pub patch_json : Option JsString

-- A row of `inbound_note_update_heads`.
pub record Head : Type 0 where
  pub actor_ap_id : JsString
  pub object_ap_id : JsString
  pub applied_sequence : ℕ
  pub creation_activity_ap_id : Option JsString

pub record Deletion : Type 0 where
  pub actor_ap_id : JsString
  pub object_ap_id : JsString

-- The three tables; `last_sequence` is the greatest key that the second ever gave out. Events stand
-- in the order of their keys.
pub record Tables : Type 0 where
  pub heads : List Head
  pub events : List Event
  pub last_sequence : ℕ
  pub deletions : List Deletion

abbrev pub max_pending_note_updates : ℕ
max_pending_note_updates = 16

module _ (parse_url : JsString → Option Url) where
  unfoldable pub normalize_activity_pub_actor_id : JsString → Option JsString
  normalize_activity_pub_actor_id value = normalized (parse_url value)
    where
      without_slash : JsString → JsString
      without_slash s = if ends_with s (js "/") then take (length s - 1) s else s

      normalized : Option Url → Option JsString
      normalized none = none
      normalized (some url) =
          some (
            without_slash (url.protocol ++ (js "//" ++ (url.host ++ (url.pathname ++ url.search)))))

-- `sameKey`
abbrev pub same_key : JsString → JsString → Event → Bool
same_key actor object e = str_eq e.actor_ap_id actor && str_eq e.object_ap_id object

abbrev pub is_head_of : JsString → JsString → Head → Bool
is_head_of actor object h = str_eq h.actor_ap_id actor && str_eq h.object_ap_id object

abbrev pub has_activity : JsString → Event → Bool
has_activity activity e = str_eq e.activity_ap_id activity

unfoldable pub head_of : JsString → JsString → Tables → Option Head
head_of actor object db = find (is_head_of actor object) db.heads

abbrev applied_of : Option Head → ℕ
applied_of none = 0
applied_of (some h) = h.applied_sequence

abbrev creation_of : Option Head → Option JsString
creation_of none = none
creation_of (some h) = h.creation_activity_ap_id

-- `COALESCE((SELECT appliedSequence …), 0)`
unfoldable pub applied_sequence : JsString → JsString → Tables → ℕ
applied_sequence actor object db = applied_of (head_of actor object db)

unfoldable pub is_deleted : JsString → JsString → Tables → Bool
is_deleted actor object db =
    any (λ d. str_eq d.actor_ap_id actor && str_eq d.object_ap_id object) db.deletions

-- The events of a note that are not applied yet.
unfoldable pub pending_events : JsString → JsString → Tables → List Event
pending_events actor object db =
    filter (λ e. same_key actor object e && ltb (applied_sequence actor object db) e.sequence)
      db.events

unfoldable pub find_activity : JsString → Tables → Option Event
find_activity activity db = find (has_activity activity) db.events

-- `identity AND capacity AND inboundObjectNotDeletedSql`
unfoldable pub admits : JsString → JsString → JsString → Tables → Bool
admits actor object activity db =
    not (any (λ e. has_activity activity e && not (same_key actor object e)) db.events)
    && ((any (has_activity activity) db.events
          || ltb (length (pending_events actor object db)) max_pending_note_updates)
        && not (is_deleted actor object db))

unfoldable pub ensure_head : JsString → JsString → Tables → Tables
ensure_head actor object db = if any (is_head_of actor object) db.heads then db else record db {
  heads =
      db.heads
      ++ record {
        actor_ap_id = actor;
        object_ap_id = object;
        applied_sequence = 0;
        creation_activity_ap_id = none;
      }
        ∷ [];
}

unfoldable pub insert_event : JsString → JsString → JsString → JsString → Tables → Tables
insert_event actor object activity patch db =
    if any (has_activity activity) db.events then db else record db {
      last_sequence = db.last_sequence + 1;
      events =
          db.events
          ++ record {
            sequence = db.last_sequence + 1;
            activity_ap_id = activity;
            actor_ap_id = actor;
            object_ap_id = object;
            patch_json = some patch;
          }
            ∷ [];
    }

-- `throws` is an error of the types or the conflict, `deleted` the answer null.
pub data Admission : Type 0 where
  throws deleted : Admission
  admitted : Event → Admission

-- The event that the last SELECT finds, checked against the note.
abbrev checked : JsString → JsString → Option Event → Admission
checked actor object none = throws
checked actor object (some e) = if same_key actor object e then admitted e else throws

module _ (parse_url : JsString → Option Url) where
  -- `others` is what happens between the failed batch, or the batch, and the SELECT after it.
  unfoldable pub admit_inbound_note_update :
      (Tables → Tables) → JsString → JsString → JsString → JsString → Tables → Admission × Tables
  admit_inbound_note_update others actor object activity patch db =
      if is_empty activity
      then (throws, db)
      else keyed (normalize_activity_pub_actor_id parse_url actor)
    where
      refused : JsString → Admission × Tables
      refused key = (if is_deleted key object (others db) then deleted else throws, others db)

      written : JsString → Tables → Admission × Tables
      written key db' = (checked key object (find_activity activity db'), db')

      keyed : Option JsString → Admission × Tables
      keyed none = (throws, db)
      keyed (some key) =
          if admits key object activity db
          then written key
              (others (insert_event key object activity patch (ensure_head key object db)))
          else refused key

pub record Window : Type 0 where
  pub actor : JsString
  pub object_id : JsString
  pub applied : ℕ
  pub latest : ℕ
  pub creation_activity_id : Option JsString
  pub events : List Event

-- `events.at(-1)?.sequence ?? applied`
abbrev pub latest_of : ℕ → List Event → ℕ
latest_of applied [] = applied
latest_of applied (e ∷ es) = latest_of e.sequence es

-- What the two SELECTs read of a note.
unfoldable pub window_of : JsString → JsString → Tables → Window
window_of key object db =
    let head = head_of key object db in
    let applied = applied_of head in
    let events = take (suc max_pending_note_updates) (pending_events key object db) in
    record {
      actor = key;
      object_id = object;
      applied = applied;
      latest = latest_of applied events;
      creation_activity_id = creation_of head;
      events = events;
    }

-- The window of a key; `none` is the conflict that is thrown for too many events.
unfoldable pub load_window : JsString → JsString → Tables → Option Window
load_window key object db =
    let w = window_of key object db in
    if ltb max_pending_note_updates (length w.events) then none else some w

module _ (parse_url : JsString → Option Url) where
  unfoldable pub load_inbound_note_update_window : JsString → JsString → Tables → Option Window
  load_inbound_note_update_window actor object db =
      keyed (normalize_activity_pub_actor_id parse_url actor)
    where
      keyed : Option JsString → Option Window
      keyed none = none
      keyed (some key) = load_window key object db

-- `a IS b`, which two NULLs satisfy
abbrev pub is_same_text : Option JsString → Option JsString → Bool
is_same_text none none = true
is_same_text (some a) (some b) = str_eq a b
is_same_text _ _ = false

unfoldable pub greatest_sequence : List Event → ℕ
greatest_sequence [] = 0
greatest_sequence (e ∷ es) = max e.sequence (greatest_sequence es)

-- `COALESCE((SELECT MAX(sequence) …), 0)`
unfoldable pub max_sequence : JsString → JsString → Tables → ℕ
max_sequence actor object db = greatest_sequence (filter (same_key actor object) db.events)

-- The guard of the commit, together with the predicate of the source.
unfoldable pub is_unchanged : Bool → Window → Tables → Bool
is_unchanged source_predicate w db =
    source_predicate
    && (applied_sequence w.actor w.object_id db == w.applied
        && (max_sequence w.actor w.object_id db == w.latest
            && (is_same_text (creation_of (head_of w.actor w.object_id db)) w.creation_activity_id
                && not (is_deleted w.actor w.object_id db))))

abbrev set_heads : (Head → Bool) → (Head → Head) → Tables → Tables
set_heads p f db = record db { heads = map (λ h. if p h then f h else h) db.heads }

abbrev set_events : (Event → Bool) → (Event → Event) → Tables → Tables
set_events p f db = record db { events = map (λ e. if p e then f e else e) db.events }

-- The statements of a commit; `creation` is `none` for an undefined `creationActivityId`.
unfoldable pub commit_statements : Window → Option (Option JsString) → Tables → Tables
commit_statements w creation db = created creation released
  where
    mine : Head → Bool
    mine h = is_head_of w.actor w.object_id h

    moved : Tables
    moved =
        set_heads (λ h. mine h && h.applied_sequence == w.applied)
          (λ h. record h { applied_sequence = w.latest }) (ensure_head w.actor w.object_id db)

    released : Tables
    released =
        set_events
          (λ e.
            same_key w.actor w.object_id e && (ltb w.applied e.sequence && leb e.sequence w.latest))
          (λ e. record e { patch_json = none }) moved

    created : Option (Option JsString) → Tables → Tables
    created none db' = db'
    created (some id) db' =
        set_heads (λ h. mine h && is_same_text h.creation_activity_ap_id w.creation_activity_id)
          (λ h. record h { creation_activity_ap_id = id }) db'

-- The guarded batch: the tables afterwards, or `none` for the conflict, which rolls back.
unfoldable pub commit_window : Bool → Window → Option (Option JsString) → Tables → Option Tables
commit_window source_predicate w creation db =
    if is_unchanged source_predicate w db then some (commit_statements w creation db) else none
