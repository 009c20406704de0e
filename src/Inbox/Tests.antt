-- ===== src/Inbox/Tests.antt =====
-- Edits of a note at concrete inputs.
use yurucommu_core.Base.{true, Option, none, some, [], ◌∷◌, JsString, js, ◌≡◌, refl, arith, str_eq}
use yurucommu_core.Ssrf.Urls.{Url}
use yurucommu_core.Ssrf.Text.{ends_with}
use yurucommu_core.Inbox.NoteUpdates.{
  Tables, Event, Head, Window, admitted, admit_inbound_note_update, normalize_activity_pub_actor_id,
  admits, is_deleted, head_of, applied_sequence, pending_events, find_activity, insert_event,
  ensure_head, load_window, window_of, commit_window, is_unchanged, commit_statements, max_sequence,
  greatest_sequence,
}
use yurucommu_core.Inbox.NoteUpdates.Admitting.{written, admit-idempotent}
use yurucommu_core.Inbox.NoteUpdates.Commits.{commit-applies_all, commit-conflict}

abbrev parse : JsString → Option Url
parse s = some (record {
  protocol = js "https:";
  username = [];
  password = [];
  host = js "h";
  hostname = js "h";
  port = [];
  pathname = js "/u/";
  search = [];
  hash = [];
})

abbrev actor : JsString
actor = js "https://h/u"

abbrev head : Head
head = record {
  actor_ap_id = actor;
  object_ap_id = js "note";
  applied_sequence = 1;
  creation_activity_ap_id = none;
}

abbrev first : Event
first = record {
  sequence = 1;
  activity_ap_id = js "a1";
  actor_ap_id = actor;
  object_ap_id = js "note";
  patch_json = none;
}

abbrev second : Event
second = record first { sequence = 2; activity_ap_id = js "a2"; patch_json = some (js "{}") }

abbrev third : Event
third = record second { sequence = 3; activity_ap_id = js "a3" }

abbrev tables : Tables
tables = record {
  heads = head ∷ [];
  events = first ∷ second ∷ [];
  last_sequence = 2;
  deletions = [];
}

abbrev after_third : Tables
after_third = record tables { events = first ∷ second ∷ third ∷ []; last_sequence = 3 }

third_admitted :
    admit_inbound_note_update parse (λ t. t) actor (js "note") (js "a3") (js "{}") tables
    ≡ (admitted third, after_third)
unfolding admit_inbound_note_update normalize_activity_pub_actor_id admits is_deleted head_of
    applied_sequence pending_events find_activity insert_event ensure_head ends_with str_eq
third_admitted = refl

admit-idempotent_example :
    admit_inbound_note_update parse
      (λ t. t)
      actor
      (js "note")
      (js "a3")
      (js "{\"x\":1}")
      after_third
    ≡ (admitted third, after_third)
admit-idempotent_example =
    admit-idempotent parse actor (js "note") (js "a3") (js "{}") (js "{\"x\":1}") tables
      third_admitted

abbrev window : Window
window = record {
  actor = actor;
  object_id = js "note";
  applied = 1;
  latest = 2;
  creation_activity_id = none;
  events = second ∷ [];
}

loaded : load_window actor (js "note") tables ≡ some window
unfolding load_window window_of head_of applied_sequence pending_events str_eq
loaded = refl

abbrev committed : Tables
committed = record tables {
  heads = record head { applied_sequence = 2 } ∷ [];
  events = first ∷ record second { patch_json = none } ∷ [];
}

committing : commit_window true window none tables ≡ some committed
unfolding commit_window is_unchanged commit_statements max_sequence greatest_sequence is_deleted
    ensure_head head_of applied_sequence str_eq
committing = refl

commit-applies_all_example :
    (pending_events actor (js "note") committed ≡ [])
    × (applied_sequence actor (js "note") committed ≡ 2)
commit-applies_all_example = commit-applies_all true window none tables committing

commit-conflict_example :
    commit_window true window none (written actor (js "note") (js "a3") (js "{}") tables) ≡ none
unfolding str_eq
commit-conflict_example =
    commit-conflict true none actor (js "note") (js "a3") (js "{}") tables
      ((omega arith, (omega arith, tt)), (omega arith, tt)) refl loaded
