-- ===== src/Delivery/Semaphore.antt =====
-- src/backend/lib/delivery/queue.ts: `Semaphore`, on which the bulkhead of the deliveries stands. A
-- task is a number. A waiter that `release` wakes runs later: the promise is resolved at once, but
-- the line after the `await` is a step of its own.
pub mod Holders
mod Tests
use yurucommu_core.Base.{
  ℕ, zero, suc, ◌+◌, ◌-◌, ◌≤◌, Bool, true, false, List, [], ◌∷◌, ◌++◌, ◌≡◌, if◌then◌else◌,
}

pub data ℤ : Type 0 where
  pos negsuc : ℕ → ℤ

unfoldable pub predℤ : ℤ → ℤ
predℤ (pos zero) = negsuc 0
predℤ (pos (suc n)) = pos n
predℤ (negsuc n) = negsuc (suc n)

unfoldable pub sucℤ : ℤ → ℤ
sucℤ (pos n) = pos (suc n)
sucℤ (negsuc zero) = pos 0
sucℤ (negsuc (suc n)) = negsuc n

unfoldable pub is_positive : ℤ → Bool
is_positive (pos zero) = false
is_positive (pos (suc n)) = true
is_positive (negsuc n) = false

-- `available` is the field of the code; `woken` are the tasks whose promise is resolved, and
-- `holders` counts the tasks that are past `acquire` and not yet past `release`.
pub record Semaphore : Type 0 where
  pub available : ℤ
  pub waiters : List ℕ
  pub woken : List ℕ
  pub holders : ℕ

unfoldable pub new_semaphore : ℕ → Semaphore
new_semaphore limit = record { available = pos limit; waiters = []; woken = []; holders = 0 }

unfoldable pub acquire : ℕ → Semaphore → Semaphore
acquire task s =
    if is_positive s.available
    then record s { available = predℤ s.available; holders = s.holders + 1 }
    else record s { waiters = s.waiters ++ task ∷ [] }

unfoldable pub release : Semaphore → Semaphore
release s = shifted s.waiters
  where
    shifted : List ℕ → Semaphore
    shifted [] = record s { available = sucℤ s.available; holders = s.holders - 1 }
    shifted (next ∷ waiters) = record {
      available = sucℤ s.available;
      waiters = waiters;
      woken = s.woken ++ next ∷ [];
      holders = s.holders - 1;
    }

-- The first woken task runs on.
unfoldable pub resume : Semaphore → Semaphore
resume s = run_on s.woken
  where
    run_on : List ℕ → Semaphore
    run_on [] = s
    run_on (task ∷ woken) = record s {
      available = predℤ s.available;
      woken = woken;
      holders = s.holders + 1;
    }

-- What tasks do to a semaphore of `limit`, in any order; only a holder releases.
pub data Reaches (limit : ℕ) : Semaphore → Type 0 where
  start : Reaches limit (new_semaphore limit)
  acquiring : {s : Semaphore} (task : ℕ) → Reaches limit s → Reaches limit (acquire task s)
  releasing : {s : Semaphore} → 1 ≤ s.holders → Reaches limit s → Reaches limit (release s)
  resuming : {s : Semaphore} → Reaches limit s → Reaches limit (resume s)

-- The same, if no task comes while a woken one has not run on.
pub data Orderly (limit : ℕ) : Semaphore → Type 0 where
  start_ : Orderly limit (new_semaphore limit)
  acquiring_ :
      {s : Semaphore} (task : ℕ) → s.woken ≡ [] → Orderly limit s → Orderly limit (acquire task s)
  releasing_ : {s : Semaphore} → 1 ≤ s.holders → Orderly limit s → Orderly limit (release s)
  resuming_ : {s : Semaphore} → Orderly limit s → Orderly limit (resume s)
