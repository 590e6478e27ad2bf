-- ===== src/Libc/Qsem/Tests.antt =====
-- Two threads and a semaphore of 1.
use os_open_blt.Base.{◌≤◌, ◌<◌, refl, arith}
use os_open_blt.Libc.Qsem.{qsem_create, qsem_acquire, qsem_release, atomic_add}
use os_open_blt.Libc.Qsem.Threads.{
  Threads, started, begin_acquire, begin_release, take, give, Reached, Reached-bounded,
  Reached-progress,
}

abbrev both_acquire : Threads
both_acquire = begin_acquire (begin_acquire (started 1))

abbrev both_acquire-Reached : Reached 1 both_acquire
both_acquire-Reached = Reached.acquiring _ (Reached.acquiring _ Reached.start)

Reached-bounded_example : both_acquire.inside ≤ 1
Reached-bounded_example = Reached-bounded 1 both_acquire both_acquire-Reached

-- The first thread has released the semaphore, and the second waits.
abbrev handed_over : Threads
handed_over = give (begin_release both_acquire)

handed_over-Reached : Reached 1 handed_over
unfolding started qsem_create begin_acquire begin_release qsem_acquire qsem_release atomic_add give
handed_over-Reached =
    Reached.released (begin_release both_acquire)
      (Reached.releasing both_acquire both_acquire-Reached (omega arith)) (omega arith)

Reached-progress_example : Reached 1 (take handed_over) × (0 < handed_over.sem.mutex)
unfolding started qsem_create begin_acquire begin_release qsem_acquire qsem_release atomic_add give
Reached-progress_example =
    Reached-progress 1 handed_over (omega arith) handed_over-Reached refl refl (omega arith)
