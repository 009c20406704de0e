-- ===== src/Inbox/NoteUpdates/Commits.antt =====
-- The commit of a window.
use mathlib.Core.Option
use yurucommu_core.Base.{
  ℕ, suc, ◌≤◌, ◌<◌, max, Bool, true, false, ◌&&◌, Option, none, some, List, [], ◌∷◌, ◌++◌, map,
  JsString, ◌≡◌, ◌∙◌, inl, inr, refl, arith, str_eq_refl, if◌then◌else◌, ltb, leb, ◌==◌, any, find,
  filter, All, All-filter, All-take, All-find, find-any, find-holds, find-map, filter-append,
  Bool-cases,
}
use yurucommu_core.Inbox.NoteUpdates.{
  Tables, Event, Head, Window, same_key, has_activity, is_head_of, head_of, applied_of,
  applied_sequence, latest_of, pending_events, ensure_head, load_window, window_of, is_unchanged,
  commit_statements, commit_window, max_sequence, greatest_sequence, max_pending_note_updates,
}
use yurucommu_core.Inbox.NoteUpdates.Admitting.{
  written, written-new, new_event, has_head, ensure_head-events,
}
use yurucommu_core.Inbox.NoteUpdates.Bounds.{ensure_head-applied}

-- No event of the note stands above a bound of their keys.
none_above :
    (a o : JsString) (n : ℕ) (g : Event → Event) (es : List Event)
    → ((e : Event) → (same_key a o (g e) ≡ same_key a o e) × ((g e).sequence ≡ e.sequence))
    → greatest_sequence (filter (same_key a o) es) ≤ n
    → filter (λ e. same_key a o e && ltb n e.sequence) (map g es) ≡ []
unfolding greatest_sequence
none_above a o n g [] same h = refl
none_above a o n g (e ∷ es) same h = elim (Bool-cases (same_key a o e)) [
  | inl mine ↦
      let bound : max e.sequence (greatest_sequence (filter (same_key a o) es)) ≤ n =
        rw mine at h in
      rw ((same e).0, mine, (same e).1) (ground (arith, none_above a o n g es same (omega arith)))
  | inr other ↦
      let bound : greatest_sequence (filter (same_key a o) es) ≤ n = rw other at h in
      rw ((same e).0, other) (none_above a o n g es same bound)
]

moved-applied :
    (a o : JsString) (n m : ℕ) (heads : List Head)
    → any (is_head_of a o) heads ≡ true
    → applied_of (find (is_head_of a o) heads) ≡ n
    → applied_of (
        find (is_head_of a o) (
          map
            (λ (h : Head).
              if is_head_of a o h && h.applied_sequence == n
              then record h { applied_sequence = m }
              else h)
            heads))
      ≡ m
moved-applied a o n m heads there at_n =
    let (h, found) = find-any (is_head_of a o) heads there in
    rw (find-map (is_head_of a o) (is_head_of a o) g heads (λ x. kept x), found)
      (at_head h (find-holds (is_head_of a o) heads found) (rw found at at_n))
  where
    g : Head → Head
    g h =
        if is_head_of a o h && h.applied_sequence == n then record h { applied_sequence = m } else h

    kept : (x : Head) → is_head_of a o (g x) ≡ is_head_of a o x
    kept x = ground arith

    at_head :
        (h : Head) → is_head_of a o h ≡ true → h.applied_sequence ≡ n → (g h).applied_sequence ≡ m
    at_head h mine e = ground arith

created-applied :
    (a o : JsString) (p : Head → Bool) (id : Option JsString) (heads : List Head)
    → applied_of (
        find
          (is_head_of a o)
          (map (λ (h : Head). if p h then record h { creation_activity_ap_id = id } else h) heads))
      ≡ applied_of (find (is_head_of a o) heads)
created-applied a o p id heads =
    rw (find-map (is_head_of a o) (is_head_of a o) g heads (λ x. ground arith))
      (same (find (is_head_of a o) heads))
  where
    g : Head → Head
    g h = if p h then record h { creation_activity_ap_id = id } else h

    same : (f : Option Head) → applied_of (Option.map g f) ≡ applied_of f
    same none = refl
    same (some h) = ground arith

-- After a commit the head stands at the end of the window.
commit-applied :
    (w : Window) (creation : Option (Option JsString)) (db : Tables)
    → applied_sequence w.actor w.object_id db ≡ w.applied
    → applied_sequence w.actor w.object_id (commit_statements w creation db) ≡ w.latest
unfolding applied_sequence head_of commit_statements
commit-applied w none db h =
    moved-applied w.actor w.object_id w.applied w.latest (ensure_head w.actor w.object_id db).heads
      (has_head w.actor w.object_id db)
      (ensure_head-applied w.actor w.object_id w.actor w.object_id db ∙ h)
commit-applied w (some id) db h =
    created-applied w.actor w.object_id _ id _
    ∙ moved-applied w.actor w.object_id w.applied w.latest
        (ensure_head w.actor w.object_id db).heads (has_head w.actor w.object_id db)
        (ensure_head-applied w.actor w.object_id w.actor w.object_id db ∙ h)

commit-pending :
    (w : Window) (creation : Option (Option JsString)) (db : Tables)
    → max_sequence w.actor w.object_id db ≤ w.latest
    → filter
        (λ e. same_key w.actor w.object_id e && ltb w.latest e.sequence)
        (commit_statements w creation db).events
      ≡ []
unfolding commit_statements max_sequence
commit-pending w creation db h = by_creation creation
  where
    released : Event → Event
    released e =
        if same_key w.actor w.object_id e && (ltb w.applied e.sequence && leb e.sequence w.latest)
        then record e { patch_json = none }
        else e

    above :
        filter
          (λ e. same_key w.actor w.object_id e && ltb w.latest e.sequence)
          (map released (ensure_head w.actor w.object_id db).events)
        ≡ []
    above =
        none_above w.actor w.object_id w.latest released (ensure_head w.actor w.object_id db).events
          (λ e. (ground arith, ground arith)) (rw (ensure_head-events w.actor w.object_id db).0 h)

    by_creation :
        (c : Option (Option JsString))
        → filter
            (λ e. same_key w.actor w.object_id e && ltb w.latest e.sequence)
            (commit_statements w c db).events
          ≡ []
    by_creation none = above
    by_creation (some id) = above

-- A commit that its guard let through has applied every edit of its note: afterwards none waits, and
-- the note stands at the last edit of the window.
pub commit-applies_all :
    (source_predicate : Bool) (w : Window) (creation : Option (Option JsString)) (db : Tables)
    {db' : Tables}
    → commit_window source_predicate w creation db ≡ some db'
    → (pending_events w.actor w.object_id db' ≡ [])
      × (applied_sequence w.actor w.object_id db' ≡ w.latest)
unfolding commit_window is_unchanged pending_events
commit-applies_all source_predicate w creation db {db'} h =
    let after : db' ≡ commit_statements w creation db = ground arith in
    let at_head : applied_sequence w.actor w.object_id db ≡ w.applied = ground arith in
    let greatest : max_sequence w.actor w.object_id db ≡ w.latest = ground arith in
    rw (after, commit-applied w creation db at_head)
      (commit-pending w creation db (omega arith), refl)

-- The keys of the events do not exceed the last one that was given out, nor do the heads.
abbrev pub IsOrdered : Tables → Type 0
IsOrdered db =
    All (λ e. e.sequence ≤ db.last_sequence) db.events
    × All (λ h. h.applied_sequence ≤ db.last_sequence) db.heads

latest-bound :
    (n applied : ℕ) (es : List Event)
    → applied ≤ n
    → All (λ e. e.sequence ≤ n) es
    → latest_of applied es ≤ n
latest-bound n applied [] h k = h
latest-bound n applied (e ∷ es) h (p, k) = latest-bound n e.sequence es p k

greatest-append : (es : List Event) (e : Event) → e.sequence ≤ greatest_sequence (es ++ e ∷ [])
unfolding greatest_sequence
greatest-append [] e = omega arith
greatest-append (d ∷ es) e = omega (arith, greatest-append es e)

window_of-note :
    (key object : JsString) (db : Tables)
    → ((window_of key object db).actor ≡ key) × ((window_of key object db).object_id ≡ object)
unfolding window_of
window_of-note key object db = (refl, refl)

-- The window of an ordered state ends within the keys that were given out.
window-bound :
    (key object : JsString) (db : Tables)
    → IsOrdered db
    → (window_of key object db).latest ≤ db.last_sequence
unfolding window_of pending_events head_of
window-bound key object db (events, heads) =
    latest-bound db.last_sequence _ _ (at_head (find (is_head_of key object) db.heads) refl) (
      All-take (λ e. e.sequence ≤ db.last_sequence) (suc max_pending_note_updates) _
        (All-filter (λ e. e.sequence ≤ db.last_sequence) _ db.events events))
  where
    at_head :
        (f : Option Head)
        → find (is_head_of key object) db.heads ≡ f
        → applied_of f ≤ db.last_sequence
    at_head none e = omega arith
    at_head (some h) e =
        All-find (λ h. h.applied_sequence ≤ db.last_sequence) (is_head_of key object) db.heads heads
          e

-- A new event stands above all keys that were given out before.
written-greatest :
    (key object activity patch : JsString) (db : Tables)
    → any (has_activity activity) db.events ≡ false
    → db.last_sequence < max_sequence key object (written key object activity patch db)
unfolding max_sequence
written-greatest key object activity patch db fresh =
    let e = new_event key object activity patch db in
    let mine : same_key key object e ≡ true = rw (str_eq_refl key, str_eq_refl object) refl in
    rw
      (
        written-new key object activity patch db fresh,
        filter-append (same_key key object) db.events (e ∷ []),
        mine,
      )
      (omega (arith, greatest-append (filter (same_key key object) db.events) e))

-- An edit that is admitted after the window was loaded makes the guard refuse its commit, whatever
-- the source says: no admitted edit is passed over.
pub commit-conflict :
    (source_predicate : Bool) (creation : Option (Option JsString))
    (key object activity patch : JsString) (db : Tables) {w : Window}
    → IsOrdered db
    → any (has_activity activity) db.events ≡ false
    → load_window key object db ≡ some w
    → commit_window source_predicate w creation (written key object activity patch db) ≡ none
unfolding commit_window is_unchanged load_window
commit-conflict source_predicate creation key object activity patch db {w} ordered fresh h =
    let loaded : w ≡ window_of key object db = ground arith in
    let bound = window-bound key object db ordered in
    let above = written-greatest key object activity patch db fresh in
    rw loaded (refused bound above)
  where
    refused :
        (window_of key object db).latest ≤ db.last_sequence
        → db.last_sequence < max_sequence key object (written key object activity patch db)
        → commit_window source_predicate
            (window_of key object db)
            creation
            (written key object activity patch db)
          ≡ none
    refused bound above = ground (arith, window_of-note key object db)
