-- ===== src/Inbox/NoteUpdates/Admitting.antt =====
-- The admission of an edit.
use yurucommu_core.Base.{
  ◌+◌, Bool, true, false, not, ◌&&◌, Option, none, some, [], ◌∷◌, ◌++◌, JsString, ◌≡◌, ◌∙◌, inl,
  inr, refl, arith, str_eq_refl, any, any-append, find-any, find-fails, Bool-cases, Option-cases,
}
use yurucommu_core.Ssrf.Urls.{Url, is_empty}
use yurucommu_core.Inbox.NoteUpdates.{
  Tables, Event, Head, deleted, admitted, same_key, has_activity, is_head_of, is_deleted, checked,
  find_activity, admits, ensure_head, insert_event, admit_inbound_note_update,
  normalize_activity_pub_actor_id,
}

-- The tables that an admitted batch leaves.
abbrev pub written : JsString → JsString → JsString → JsString → Tables → Tables
written key object activity patch db =
    insert_event key object activity patch (ensure_head key object db)

pub ensure_head-events :
    (key object : JsString) (db : Tables)
    → ((ensure_head key object db).events ≡ db.events)
      × ((ensure_head key object db).last_sequence ≡ db.last_sequence)
      × ((ensure_head key object db).deletions ≡ db.deletions)
unfolding ensure_head
ensure_head-events key object db = ground arith

abbrev pub new_head : JsString → JsString → Head
new_head key object = record {
  actor_ap_id = key;
  object_ap_id = object;
  applied_sequence = 0;
  creation_activity_ap_id = none;
}

abbrev pub new_event : JsString → JsString → JsString → JsString → Tables → Event
new_event key object activity patch db = record {
  sequence = db.last_sequence + 1;
  activity_ap_id = activity;
  actor_ap_id = key;
  object_ap_id = object;
  patch_json = some patch;
}

pub has_head :
    (key object : JsString) (db : Tables)
    → any (is_head_of key object) (ensure_head key object db).heads ≡ true
unfolding ensure_head
has_head key object db = elim (Bool-cases (any (is_head_of key object) db.heads)) [
  | inl there ↦ rw there there
  | inr missing ↦ rw (missing, any-append, str_eq_refl key, str_eq_refl object) (ground arith)
]

ensure_head-idempotent :
    (key object : JsString) (db : Tables)
    → any (is_head_of key object) db.heads ≡ true
    → ensure_head key object db ≡ db
unfolding ensure_head
ensure_head-idempotent key object db there = rw there refl

insert_event-idempotent :
    (key object activity patch : JsString) (db : Tables)
    → any (has_activity activity) db.events ≡ true
    → insert_event key object activity patch db ≡ db
unfolding insert_event
insert_event-idempotent key object activity patch db there = rw there refl

-- The events after a write: one more, unless the activity is known.
pub written-known :
    (key object activity patch : JsString) (db : Tables)
    → any (has_activity activity) db.events ≡ true
    → written key object activity patch db ≡ ensure_head key object db
unfolding ensure_head
written-known key object activity patch db there =
    insert_event-idempotent key object activity patch (ensure_head key object db)
      (rw (ensure_head-events key object db).0 there)

pub written-new :
    (key object activity patch : JsString) (db : Tables)
    → any (has_activity activity) db.events ≡ false
    → (written key object activity patch db).events
      ≡ db.events ++ new_event key object activity patch db ∷ []
unfolding insert_event ensure_head
written-new key object activity patch db missing = ground (arith, ensure_head-events key object db)

pub written-rest :
    (key object activity patch : JsString) (db : Tables)
    → ((written key object activity patch db).heads ≡ (ensure_head key object db).heads)
      × ((written key object activity patch db).deletions ≡ db.deletions)
unfolding insert_event
written-rest key object activity patch db = ground (arith, ensure_head-events key object db)

has_event :
    (key object activity patch : JsString) (db : Tables)
    → any (has_activity activity) (written key object activity patch db).events ≡ true
has_event key object activity patch db = elim (Bool-cases (any (has_activity activity) db.events)) [
  | inl there ↦
      rw (written-known key object activity patch db there, (ensure_head-events key object db).0)
        there
  | inr missing ↦
      rw (written-new key object activity patch db missing, any-append, str_eq_refl activity)
        (ground arith)
]

-- Written once, the same dispatch writes nothing more.
written-idempotent :
    (key object activity patch patch' : JsString) (db : Tables)
    → written key object activity patch' (written key object activity patch db)
      ≡ written key object activity patch db
written-idempotent key object activity patch patch' db =
    written-known key object activity patch' (written key object activity patch db)
      (has_event key object activity patch db)
    ∙ ensure_head-idempotent key object (written key object activity patch db)
        (rw (written-rest key object activity patch db).0 (has_head key object db))

-- A write keeps what is true of no event, if it is not true of its own.
any-written :
    (p : Event → Bool) (key object activity patch : JsString) (db : Tables)
    → p (new_event key object activity patch db) ≡ false
    → any p (written key object activity patch db).events ≡ any p db.events
any-written p key object activity patch db own =
    elim (Bool-cases (any (has_activity activity) db.events)) [
      | inl there ↦
          rw
            (written-known key object activity patch db there, (ensure_head-events key object db).0)
            refl
      | inr missing ↦
          rw (written-new key object activity patch db missing, any-append, own) (ground arith)
    ]

-- After an admission the guard admits the same dispatch again, however full the window is.
admits-again :
    (key object activity patch : JsString) (db : Tables)
    → admits key object activity db ≡ true
    → admits key object activity (written key object activity patch db) ≡ true
unfolding admits is_deleted
admits-again key object activity patch db h = ground (
  arith,
  any-written (λ e. has_activity activity e && not (same_key key object e)) key object activity
      patch db (rw (str_eq_refl activity, str_eq_refl key, str_eq_refl object) refl),
  has_event key object activity patch db,
  (written-rest key object activity patch db).1,
)

-- The event found after a write has the activity.
found-written :
    (key object activity patch : JsString) (db : Tables)
    → admits key object activity db ≡ true
    → (e : Event) × (find_activity activity (written key object activity patch db) ≡ some e)
      × (same_key key object e ≡ true)
unfolding find_activity admits
found-written key object activity patch db h =
    let (e, there) =
      find-any (has_activity activity) (written key object activity patch db).events
        (has_event key object activity patch db) in
    let again = admits-again key object activity patch db h in
    let mine =
      find-fails (has_activity activity) (λ e. not (same_key key object e))
        (written key object activity patch db).events (ground arith) there in
    (e, there, ground arith)

module _ (parse_url : JsString → Option Url) where
  -- What an admission did.
  admit-won :
      (actor object activity patch : JsString) (db : Tables) {e : Event} {db' : Tables}
      → admit_inbound_note_update parse_url (λ t. t) actor object activity patch db
        ≡ (admitted e, db')
      → (key : JsString) × (normalize_activity_pub_actor_id parse_url actor ≡ some key)
        × (is_empty activity ≡ false)
        × (admits key object activity db ≡ true)
        × (db' ≡ written key object activity patch db)
        × (checked key object (find_activity activity (written key object activity patch db))
            ≡ admitted e)
  unfolding admit_inbound_note_update
  admit-won actor object activity patch db {e} {db'} h =
      elim (Option-cases (normalize_activity_pub_actor_id parse_url actor)) [
        | inl bad ↦ let x = rw bad at h in ground arith
        | inr (key, good) ↦ (key, good, ground arith, ground arith, ground arith, ground arith)
      ]

  -- A dispatch that was admitted is admitted again with the same event, and nothing is written, even
  -- if the window is full by then or the patch that comes with it is another one.
  pub admit-idempotent :
      (actor object activity patch patch' : JsString) (db : Tables) {e : Event} {db' : Tables}
      → admit_inbound_note_update parse_url (λ t. t) actor object activity patch db
        ≡ (admitted e, db')
      → admit_inbound_note_update parse_url (λ t. t) actor object activity patch' db'
        ≡ (admitted e, db')
  unfolding admit_inbound_note_update
  admit-idempotent actor object activity patch patch' db {e} {db'} h =
      let (key, good, given, guard, after, seen) = admit-won actor object activity patch db h in
      let again = admits-again key object activity patch db guard in
      let same = written-idempotent key object activity patch patch' db in ground arith

  -- A dispatch that the guard admits is answered with an event of the same note: the SELECT after the
  -- batch finds it, and it is the edit of no other actor or object.
  pub admit-succeeds :
      (actor object activity patch key : JsString) (db : Tables)
      → normalize_activity_pub_actor_id parse_url actor ≡ some key
      → is_empty activity ≡ false
      → admits key object activity db ≡ true
      → (e : Event) × (admit_inbound_note_update parse_url (λ t. t) actor object activity patch db
          ≡ (admitted e, written key object activity patch db))
        × (same_key key object e ≡ true)
  unfolding admit_inbound_note_update
  admit-succeeds actor object activity patch key db good given guard =
      let (e, there, mine) = found-written key object activity patch db guard in
      (e, ground arith, mine)

  -- Once a note's deletion is recorded, every edit of it is answered with null and changes nothing.
  pub admit-deleted :
      (others : Tables → Tables) (actor object activity patch key : JsString) (db : Tables)
      → normalize_activity_pub_actor_id parse_url actor ≡ some key
      → is_empty activity ≡ false
      → is_deleted key object db ≡ true
      → is_deleted key object (others db) ≡ true
      → admit_inbound_note_update parse_url others actor object activity patch db
        ≡ (deleted, others db)
  unfolding admit_inbound_note_update admits
  admit-deleted others actor object activity patch key db good given gone still = ground arith
