-- ===== src/Inbox/NoteUpdates/Bounds.antt =====
-- The bound on the edits that wait.
use yurucommu_core.Base.{
  suc, ◌+◌, ◌≤◌, Bool, true, ◌&&◌, Option, some, [], ◌∷◌, JsString, ◌≡◌, ◌⊎◌, ◌∙◌, ap, inl, inr,
  refl, arith, str_eq, str_eq_iff, if◌then◌else◌, ltb, any, find, filter, length, find-append,
  find-none, filter-append, length-append, take-all, Bool-cases, Option-cases,
}
use yurucommu_core.Ssrf.Urls.{Url, is_empty}
use yurucommu_core.Inbox.NoteUpdates.{
  Tables, Event, same_key, has_activity, is_head_of, head_of, applied_of, applied_sequence,
  pending_events, admits, ensure_head, admit_inbound_note_update, max_pending_note_updates,
  normalize_activity_pub_actor_id, load_window, window_of,
}
use yurucommu_core.Inbox.NoteUpdates.Admitting.{
  written, written-known, written-new, written-rest, new_event, new_head, ensure_head-events,
}

-- At most sixteen edits of any note wait.
abbrev pub IsBounded : Tables → Type 0
IsBounded db =
    (actor object : JsString) → length (pending_events actor object db) ≤ max_pending_note_updates

pub ensure_head-applied :
    (key object a o : JsString) (db : Tables)
    → applied_sequence a o (ensure_head key object db) ≡ applied_sequence a o db
unfolding applied_sequence head_of ensure_head
ensure_head-applied key object a o db = elim (Bool-cases (any (is_head_of key object) db.heads)) [
  | inl there ↦ rw there refl
  | inr missing ↦
      rw (missing, find-append (is_head_of a o) db.heads (new_head key object ∷ []))
        (ground (arith, find-none (is_head_of a o) db.heads))
]

written-applied :
    (key object activity patch a o : JsString) (db : Tables)
    → applied_sequence a o (written key object activity patch db) ≡ applied_sequence a o db
unfolding applied_sequence head_of
written-applied key object activity patch a o db =
    ap (λ heads. applied_of (find (is_head_of a o) heads))
      (written-rest key object activity patch db).0
    ∙ ensure_head-applied key object a o db

-- One more edit waits, for its own note only.
pending-written :
    (key object activity patch a o : JsString) (db : Tables)
    → length (pending_events a o (written key object activity patch db))
      ≤ length (pending_events a o db)
        + (if any (has_activity activity) db.events
            then 0
            else if str_eq key a && str_eq object o
            then 1
            else 0)
unfolding pending_events
pending-written key object activity patch a o db =
    elim (Bool-cases (any (has_activity activity) db.events)) [
      | inl there ↦
          rw
            (
              written-applied key object activity patch a o db,
              written-known key object activity patch db there,
              (ensure_head-events key object db).0,
              there,
            )
            (omega arith)
      | inr missing ↦
          rw
            (
              written-applied key object activity patch a o db,
              written-new key object activity patch db missing,
              missing,
              filter-append (waits a o) db.events (new_event key object activity patch db ∷ []),
              length-append (filter (waits a o) db.events)
                  (filter (waits a o) (new_event key object activity patch db ∷ [])),
            )
            (ground arith)
    ]
  where
    waits : JsString → JsString → Event → Bool
    waits a o e = same_key a o e && ltb (applied_sequence a o db) e.sequence

-- An admitted write keeps the bound, of its own note and of all others.
pub written-IsBounded :
    (key object activity patch : JsString) (db : Tables)
    → IsBounded db
    → admits key object activity db ≡ true
    → IsBounded (written key object activity patch db)
unfolding admits
written-IsBounded key object activity patch db h guard a o = ground (
  arith,
  pending-written key object activity patch a o db,
  h a o,
  str_eq_iff key a,
  str_eq_iff object o,
)

-- As long as the bound holds, a window can be loaded, and it has all the edits that wait: no note is
-- ever refused for the edits that were admitted.
pub load-succeeds :
    (key object : JsString) (db : Tables)
    → IsBounded db
    → (load_window key object db ≡ some (window_of key object db))
      × ((window_of key object db).events ≡ pending_events key object db)
unfolding load_window window_of
load-succeeds key object db h =
    let whole =
      take-all (suc max_pending_note_updates) (pending_events key object db)
        (omega (arith, h key object)) in
    (ground (arith, h key object, whole), whole)

module _ (parse_url : JsString → Option Url) where
  -- An admission leaves the tables, leaves them to the others, or writes what the guard admitted.
  admit-cases :
      (others : Tables → Tables) (actor object activity patch : JsString) (db : Tables)
      → let after = (admit_inbound_note_update parse_url others actor object activity patch db).1 in
        (after ≡ db)
        ⊎ ((after ≡ others db)
            ⊎ ((key : JsString) × (admits key object activity db ≡ true)
                × (after ≡ others (written key object activity patch db))))
  unfolding admit_inbound_note_update
  admit-cases others actor object activity patch db =
      elim (Option-cases (normalize_activity_pub_actor_id parse_url actor)) [
        | inl bad ↦ inl (ground arith)
        | inr (key, good) ↦ elim (Bool-cases (admits key object activity db)) [
          | inr refused ↦ ground arith
          | inl guard ↦ elim (Bool-cases (is_empty activity)) [
            | inl nothing ↦ inl (ground arith)
            | inr given ↦ inr (inr (key, guard, ground arith))
          ]
        ]
      ]

  -- Every admission, whatever it is answered, keeps the bound, if what the others do meanwhile keeps
  -- it.
  pub admit-IsBounded :
      (others : Tables → Tables) (actor object activity patch : JsString) (db : Tables)
      → ((t : Tables) → IsBounded t → IsBounded (others t))
      → IsBounded db
      → IsBounded (admit_inbound_note_update parse_url others actor object activity patch db).1
  admit-IsBounded others actor object activity patch db fair h =
      elim (admit-cases others actor object activity patch db) [
        | inl same ↦ rw same h
        | inr (inl left) ↦ rw left (fair db h)
        | inr (inr (key, guard, after)) ↦ rw after (
            fair (written key object activity patch db)
              (written-IsBounded key object activity patch db h guard))
      ]
