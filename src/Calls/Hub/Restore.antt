-- ===== src/Calls/Hub/Restore.antt =====
-- A hub that wakes from hibernation has the calls that it had.
use yurucommu_core.Base.{
  ◌≡◌, refl, sym, ap, ◌∙◌, not, Option, none, some, [], ◌∷◌, JsString, JsMap, lookup, str_eq,
  str_eq_iff, Bool-cases, inl, inr, lookup-insert, AllEntries, HasUniqueKeys, filter,
}
use yurucommu_core.Calls.Wire.{is_terminal_call_state}
use yurucommu_core.Calls.Hub.{CallRecord, CallHub, values, active_calls, hydrate}
use yurucommu_core.Calls.Hub.Events.{new_hub}
use yurucommu_core.Calls.Hub.Invariant.{IsCall, IsHub}

filter_all :
    (m : JsMap CallRecord)
    → AllEntries IsCall m
    → filter (λ c. not (is_terminal_call_state c.state)) (values m) ≡ values m
filter_all [] a = refl
filter_all ((k, c) ∷ m) (p, a) = rw (p.1, filter_all m a) refl

-- The first of two entries that there is.
abbrev either : Option CallRecord → Option CallRecord → Option CallRecord
either none o = o
either (some c) o = some c

lookup-hydrate :
    (m : JsMap CallRecord) (h : CallHub) (k : JsString)
    → HasUniqueKeys m
    → AllEntries IsCall m
    → lookup k (hydrate (values m) h).calls ≡ either (lookup k m) (lookup k h.calls)
unfolding hydrate lookup
lookup-hydrate [] h k u a = refl
lookup-hydrate ((j, c) ∷ m) h k (f, u) (p, a) =
    lookup-hydrate m _ k u a
    ∙ rw (p.1, lookup-insert, p.0)
        (elim (Bool-cases (str_eq j k)) [
          | inl same ↦ rw (same, at_k ((str_eq_iff j k).0 same)) refl
          | inr other ↦ rw other refl
        ])
  where
    at_k : j ≡ k → lookup k m ≡ none
    at_k e = ap (λ i. lookup i m) (sym e) ∙ f

-- The calls that are persisted as active restore, in a new hub, every call of the old one.
pub hydrate-active_calls :
    (h : CallHub) (k : JsString)
    → IsHub h
    → lookup k (hydrate (active_calls h) new_hub).calls ≡ lookup k h.calls
unfolding active_calls
hydrate-active_calls h k v =
    rw (filter_all h.calls v.sound) (
      lookup-hydrate h.calls new_hub k v.unique v.sound ∙ unfold lookup in alone (lookup k h.calls))
  where
    alone : (o : Option CallRecord) → either o none ≡ o
    alone none = refl
    alone (some c) = refl
