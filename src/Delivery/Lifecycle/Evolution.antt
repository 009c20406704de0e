-- ===== src/Delivery/Lifecycle/Evolution.antt =====
-- What may become of the row of one job, which another worker may also purge.
use yurucommu_core.Base.{
  ℕ, Bool, true, false, Option, none, some, JsString, JsMap, ◌≡◌, ◌⊎◌, inl, inr, refl, lookup,
  Bool-cases, Option-cases, update_where, apply_if, lookup-update_where_self, lookup-update_where,
  str_eq_refl,
}
use yurucommu_core.Delivery.Jobs.{Job}
use yurucommu_core.Delivery.Lifecycle.{JobStep, JobSteps, done, next}

pub data Evolves : Option Job → Option Job → Type 0 where
  absent : Evolves none none
  purged : {a : Job} → Evolves (some a) none
  lives : {n i : ℕ} {a b : Job} → JobSteps n i a b → Evolves (some a) (some b)

pub Evolves-refl : (o : Option Job) → Evolves o o
Evolves-refl none = absent
Evolves-refl (some a) = lives done

pub Evolves-≡ : {o p : Option Job} → p ≡ o → Evolves o p
Evolves-≡ {o} e = rw e (Evolves-refl o)

pub Evolves-step : {n i : ℕ} {a b : Job} → JobStep n i a b → Evolves (some a) (some b)
Evolves-step s = lives (next done s)

steps_trans :
    {n i m j : ℕ} {a b c : Job}
    → JobSteps n i a b
    → JobSteps m j b c
    → (k : ℕ) × (l : ℕ) × JobSteps k l a c
steps_trans r done = (_, _, r)
steps_trans r (next q s) = let (k, l, t) = steps_trans r q in (_, _, next t s)

pub Evolves-trans : {x y z : Option Job} → Evolves x y → Evolves y z → Evolves x z
Evolves-trans absent r = r
Evolves-trans purged absent = purged
Evolves-trans (lives r) purged = purged
Evolves-trans (lives r) (lives q) = lives (steps_trans r q).2

-- An update whose effect on the rows that it takes is a step.
pub update_where-Evolves :
    (k : JsString) (p : Job → Bool) (f : Job → Job) (m : JsMap Job)
    → ((b : Job) → p b ≡ true → Evolves (some b) (some (f b)))
    → Evolves (lookup k m) (lookup k (update_where k p f m))
update_where-Evolves k p f m step = elim (Option-cases (lookup k m)) [
  | inl gone ↦
      let e : lookup k (update_where k p f m) ≡ none =
        rw (lookup-update_where k k p f m, gone, str_eq_refl k) refl in
      rw (gone, e) absent
  | inr (b, there) ↦
      let e = lookup-update_where_self k p f m there in rw (there, e) (taken b (Bool-cases (p b)))
]
  where
    taken : (b : Job) → (p b ≡ true) ⊎ (p b ≡ false) → Evolves (some b) (some (apply_if p f b))
    taken b (inl hit) = rw hit (step b hit)
    taken b (inr miss) = rw miss (lives done)
