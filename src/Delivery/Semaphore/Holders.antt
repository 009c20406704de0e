-- ===== src/Delivery/Semaphore/Holders.antt =====
-- How many tasks hold a semaphore.
use yurucommu_core.Base.{ℕ, zero, suc, ◌+◌, ◌≤◌, [], ◌≡◌, refl, arith, length, length-append}
use yurucommu_core.Delivery.Semaphore.{
  ℤ, pos, negsuc, predℤ, sucℤ, is_positive, Semaphore, new_semaphore, acquire, release, resume,
  Reaches, start, acquiring, releasing, resuming, Orderly, start_, acquiring_, releasing_,
  resuming_,
}

-- The two sides of a balance.
abbrev pub credit : ℤ → ℕ
credit (pos n) = n
credit (negsuc n) = 0

abbrev pub debt : ℤ → ℕ
debt (pos n) = 0
debt (negsuc n) = suc n

predℤ-balance : (z : ℤ) → credit z + debt (predℤ z) ≡ suc (credit (predℤ z) + debt z)
unfolding predℤ
predℤ-balance (pos zero) = refl
predℤ-balance (pos (suc n)) = omega arith
predℤ-balance (negsuc n) = omega arith

sucℤ-balance : (z : ℤ) → credit (sucℤ z) + debt z ≡ suc (credit z + debt (sucℤ z))
unfolding sucℤ
sucℤ-balance (pos n) = omega arith
sucℤ-balance (negsuc zero) = refl
sucℤ-balance (negsuc (suc n)) = omega arith

-- A semaphore whose balance and holders add up to the limit.
abbrev pub IsBalanced : ℕ → Semaphore → Type 0
IsBalanced limit s = s.holders + credit s.available ≡ limit + debt s.available

acquire-IsBalanced :
    (limit task : ℕ) (s : Semaphore) → IsBalanced limit s → IsBalanced limit (acquire task s)
unfolding acquire
acquire-IsBalanced limit task s h = ground (arith, predℤ-balance s.available)

release-IsBalanced :
    (limit : ℕ) (s : Semaphore) → 1 ≤ s.holders → IsBalanced limit s → IsBalanced limit (release s)
unfolding release
release-IsBalanced limit s some_hold h = ground (arith, sucℤ-balance s.available)

resume-IsBalanced : (limit : ℕ) (s : Semaphore) → IsBalanced limit s → IsBalanced limit (resume s)
unfolding resume
resume-IsBalanced limit s h = ground (arith, predℤ-balance s.available)

-- Whatever the tasks do, in any order, the field and the holders add up to the limit; the field is
-- negative exactly when more tasks hold the semaphore than the limit allows.
pub Reaches-IsBalanced : {limit : ℕ} {s : Semaphore} → Reaches limit s → IsBalanced limit s
unfolding new_semaphore
Reaches-IsBalanced start = omega arith
Reaches-IsBalanced {limit} (acquiring {s} task r) =
    acquire-IsBalanced limit task s (Reaches-IsBalanced r)
Reaches-IsBalanced {limit} (releasing {s} h r) = release-IsBalanced limit s h (Reaches-IsBalanced r)
Reaches-IsBalanced {limit} (resuming {s} r) = resume-IsBalanced limit s (Reaches-IsBalanced r)

Orderly-IsBalanced : {limit : ℕ} {s : Semaphore} → Orderly limit s → IsBalanced limit s
unfolding new_semaphore
Orderly-IsBalanced start_ = omega arith
Orderly-IsBalanced {limit} (acquiring_ {s} task e r) =
    acquire-IsBalanced limit task s (Orderly-IsBalanced r)
Orderly-IsBalanced {limit} (releasing_ {s} h r) =
    release-IsBalanced limit s h (Orderly-IsBalanced r)
Orderly-IsBalanced {limit} (resuming_ {s} r) = resume-IsBalanced limit s (Orderly-IsBalanced r)

acquire-holders :
    (limit task : ℕ) (s : Semaphore)
    → IsBalanced limit s
    → s.woken ≡ []
    → s.holders + length s.woken ≤ limit
    → (acquire task s).holders + length (acquire task s).woken ≤ limit
unfolding acquire is_positive
acquire-holders limit task s h e k = ground arith

release-holders :
    (limit : ℕ) (s : Semaphore)
    → 1 ≤ s.holders
    → s.holders + length s.woken ≤ limit
    → (release s).holders + length (release s).woken ≤ limit
unfolding release
release-holders limit s h k = grind (arith, length-append)

resume-holders :
    (limit : ℕ) (s : Semaphore)
    → s.holders + length s.woken ≤ limit
    → (resume s).holders + length (resume s).woken ≤ limit
unfolding resume
resume-holders limit s k = ground arith

-- As long as no task comes between a release and the waiter that it woke, at most `limit` tasks hold
-- the semaphore, those that were woken included.
pub Orderly-bounded :
    {limit : ℕ} {s : Semaphore} → Orderly limit s → s.holders + length s.woken ≤ limit
unfolding new_semaphore
Orderly-bounded start_ = omega arith
Orderly-bounded {limit} (acquiring_ {s} task e r) =
    acquire-holders limit task s (Orderly-IsBalanced r) e (Orderly-bounded r)
Orderly-bounded {limit} (releasing_ {s} h r) = release-holders limit s h (Orderly-bounded r)
Orderly-bounded {limit} (resuming_ {s} r) = resume-holders limit s (Orderly-bounded r)

-- The semaphore with `k` holders and `m` places left.
abbrev taken : ℕ → ℕ → Semaphore
taken k m = record { available = pos m; waiters = []; woken = []; holders = k }

filled : (limit k m : ℕ) → k + m ≡ limit → Reaches limit (taken k m)
unfolding new_semaphore acquire is_positive predℤ
filled limit zero m e = let e' : limit ≡ m = omega arith in rw e' start
filled limit (suc k) m e =
    let e' : k + 1 ≡ suc k = omega arith in
    rw (← e') (acquiring 0 (filled limit k (suc m) (omega arith)))

-- For every limit there is an order of steps in which one task more than the limit holds the
-- semaphore: a task that comes after a release, but before the waiter that it woke has run on, takes
-- the place that the waiter then takes as well.
pub overshoots :
    (n : ℕ)
    → (s : Semaphore) × Reaches (suc n) s × (s.holders ≡ suc (suc n)) × (s.available ≡ negsuc 0)
unfolding acquire release resume is_positive predℤ sucℤ
overshoots n = (
  resume (acquire 2 (release (acquire 1 (taken (suc n) 0)))),
  resuming (
      acquiring 2 (releasing (omega arith) (acquiring 1 (filled (suc n) (suc n) 0 (omega arith))))),
  omega arith,
  refl,
)
