-- ===== src/Delivery/Semaphore/Tests.antt =====
-- A semaphore in use.
use yurucommu_core.Base.{◌+◌, ◌≤◌, ◌≡◌, refl, arith, length}
use yurucommu_core.Delivery.Semaphore.{
  negsuc, predℤ, is_positive, Semaphore, new_semaphore, acquire, release, resume, Reaches, Orderly,
  start_, acquiring_, releasing_, resuming_,
}
use yurucommu_core.Delivery.Semaphore.Holders.{Orderly-bounded, overshoots}

-- A task takes the only place, another one waits, and takes it when it is free.
abbrev shared : Semaphore
shared = resume (release (acquire 2 (acquire 1 (new_semaphore 1))))

shared-Orderly : Orderly 1 shared
unfolding new_semaphore acquire release resume is_positive predℤ
shared-Orderly = resuming_ (releasing_ (omega arith) (acquiring_ 2 refl (acquiring_ 1 refl start_)))

Orderly-bounded_example : shared.holders + length shared.woken ≤ 1
Orderly-bounded_example = Orderly-bounded shared-Orderly

overshoots_example : (s : Semaphore) × Reaches 3 s × (s.holders ≡ 4) × (s.available ≡ negsuc 0)
overshoots_example = overshoots 2
