-- ===== src/Kernel/Sem/Tests.antt =====
-- The theorems about blt/kernel/sem.c at the small kernel.
use os_open_blt.Base.{Returns, refl}
use os_open_blt.Kernel.Sem.{sem_acquire, sem_release}
use os_open_blt.Kernel.Sem.Counts.{
  Acquired, sem_acquire-Acquired, ReleasedOne, sem_release-ReleasedOne,
}
use os_open_blt.Kernel.Demo.{demo, demo-Live, demo-IsSem}

sem_acquire-Acquired_example : Returns (Acquired demo 100) (sem_acquire 1 demo)
sem_acquire-Acquired_example = sem_acquire-Acquired demo demo-Live 1 100 demo-IsSem refl

sem_release-ReleasedOne_example : Returns (ReleasedOne demo 100) (sem_release 1 demo)
sem_release-ReleasedOne_example = sem_release-ReleasedOne demo 1 100 demo-IsSem refl refl refl
