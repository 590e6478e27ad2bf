-- ===== src/Libc/Qsem.antt =====
-- blt/lib/libc/qsem.c, compiled for a machine with `atomic_add`: semaphores that call the kernel only where a
-- thread has to wait. What a call does is split at `atomic_add` and at the call of the kernel, since threads
-- run between the two.
pub mod Threads
pub mod Tests
use os_open_blt.Base.{ℕ, ◌+◌, ◌-◌, Bool, not}
use os_open_blt.Base.Int.{ℤ, pos, negsuc, ◌+ℤ◌, ltb_ℤ}

-- `qsem_t`; `mutex` is the number of times that the kernel's semaphore can be acquired.
pub record Qsem : Type 0 where
  pub count : ℤ
  pub mutex : ℕ

unfoldable pub qsem_create : ℕ → Qsem
qsem_create count = record { count = pos count; mutex = 0 }

-- The value before, and the new one.
unfoldable pub atomic_add : ℤ → Qsem → ℤ × Qsem
atomic_add amount s = (s.count, record s { count = s.count +ℤ amount })

-- The first part of `qsem_acquire`: whether `sem_acquire` is called.
unfoldable pub qsem_acquire : Qsem → Bool × Qsem
qsem_acquire s = let (old, s') = atomic_add (negsuc 0) s in (not (ltb_ℤ (pos 0) old), s')

-- The first part of `qsem_release`: whether `sem_release` is called.
unfoldable pub qsem_release : Qsem → Bool × Qsem
qsem_release s = let (old, s') = atomic_add (pos 1) s in (ltb_ℤ old (pos 0), s')
