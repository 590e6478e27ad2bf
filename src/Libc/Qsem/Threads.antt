-- ===== src/Libc/Qsem/Threads.antt =====
-- Threads that share a semaphore of blt/lib/libc/qsem.c, in any order of their steps.
use os_open_blt.Base.{ℕ, ◌+◌, ◌-◌, ◌≤◌, ◌<◌, ◌≡◌, if◌then◌else◌, arith}
use os_open_blt.Base.Int.{pos_part, neg_part}
use os_open_blt.Libc.Qsem.{Qsem, qsem_create, atomic_add, qsem_acquire, qsem_release}

-- The semaphore, and how many threads are about to call `sem_acquire` or wait in it, have acquired the semaphore,
-- and are about to call `sem_release`.
pub record Threads : Type 0 where
  pub sem : Qsem
  pub entering : ℕ
  pub inside : ℕ
  pub leaving : ℕ

unfoldable pub started : ℕ → Threads
started n = record { sem = qsem_create n; entering = 0; inside = 0; leaving = 0 }

-- A thread begins `qsem_acquire`.
unfoldable pub begin_acquire : Threads → Threads
begin_acquire t =
    let (waits, sem) = qsem_acquire t.sem in
    if waits
    then record t { sem = sem; entering = t.entering + 1 }
    else record t { sem = sem; inside = t.inside + 1 }

-- A thread begins `qsem_release`.
unfoldable pub begin_release : Threads → Threads
begin_release t =
    let (wakes, sem) = qsem_release t.sem in
    if wakes
    then record t { sem = sem; inside = t.inside - 1; leaving = t.leaving + 1 }
    else record t { sem = sem; inside = t.inside - 1 }

-- `sem_acquire` returns to a thread.
pub take : Threads → Threads
take t = record t {
  sem = record t.sem { mutex = t.sem.mutex - 1 };
  entering = t.entering - 1;
  inside = t.inside + 1;
}

-- A thread calls `sem_release`.
unfoldable pub give : Threads → Threads
give t = record t { sem = record t.sem { mutex = t.sem.mutex + 1 }; leaving = t.leaving - 1 }

-- What the threads reach from a new semaphore. The kernel lets a thread through `sem_acquire` where the
-- semaphore can be acquired.
pub data Reached (n : ℕ) : Threads → Type 0 where
  start : Reached n (started n)
  acquiring : (t : Threads) → Reached n t → Reached n (begin_acquire t)
  acquired : (t : Threads) → Reached n t → 0 < t.sem.mutex → 0 < t.entering → Reached n (take t)
  releasing : (t : Threads) → Reached n t → 0 < t.inside → Reached n (begin_release t)
  released : (t : Threads) → Reached n t → 0 < t.leaving → Reached n (give t)

-- The count is what is left for the threads to acquire; where it is negative, so many of them wait.
record IsCounted (n : ℕ) (t : Threads) : Type 0 where
  counted : pos_part t.sem.count + t.inside + t.entering ≡ n + neg_part t.sem.count
  waiting : t.entering ≡ t.sem.mutex + t.leaving + neg_part t.sem.count

begin_acquire-IsCounted : (n : ℕ) (t : Threads) → IsCounted n t → IsCounted n (begin_acquire t)
unfolding begin_acquire qsem_acquire atomic_add
begin_acquire-IsCounted n t ok = ground (arith, ok.counted, ok.waiting)

begin_release-IsCounted :
    (n : ℕ) (t : Threads) → 0 < t.inside → IsCounted n t → IsCounted n (begin_release t)
unfolding begin_release qsem_release atomic_add
begin_release-IsCounted n t some_inside ok = ground (arith, ok.counted, ok.waiting, some_inside)

Reached-IsCounted : (n : ℕ) (t : Threads) → Reached n t → IsCounted n t
unfolding started qsem_create take give
Reached-IsCounted n _ Reached.start = record { counted = ground arith; waiting = ground arith }
Reached-IsCounted n _ (Reached.acquiring t r) =
    begin_acquire-IsCounted n t (Reached-IsCounted n t r)
Reached-IsCounted n _ (Reached.acquired t r free some_entering) =
    let ok = Reached-IsCounted n t r in
    record {
      counted = omega (arith, ok.counted, some_entering);
      waiting = omega (arith, ok.waiting, free, some_entering);
    }
Reached-IsCounted n _ (Reached.releasing t r some_inside) =
    begin_release-IsCounted n t some_inside (Reached-IsCounted n t r)
Reached-IsCounted n _ (Reached.released t r some_leaving) =
    let ok = Reached-IsCounted n t r in
    record { counted = ok.counted; waiting = omega (arith, ok.waiting, some_leaving) }

-- From a semaphore of `n`, whatever the order of the threads' steps, at most `n` threads have acquired it.
pub Reached-bounded : (n : ℕ) (t : Threads) → Reached n t → t.inside ≤ n
Reached-bounded n t r = let ok = Reached-IsCounted n t r in ground (arith, ok.counted, ok.waiting)

-- From a semaphore of 1 or more: where no thread has acquired it and none is about to call `sem_release`, but
-- some threads are about to call `sem_acquire` or wait in it, the kernel lets one of them through.
pub Reached-progress :
    (n : ℕ) (t : Threads)
    → 0 < n
    → Reached n t
    → t.inside ≡ 0
    → t.leaving ≡ 0
    → 0 < t.entering
    → Reached n (take t) × (0 < t.sem.mutex)
Reached-progress n t some_left r none_inside none_leaving some_entering =
    let ok = Reached-IsCounted n t r in
    let free : 0 < t.sem.mutex =
      ground (arith, ok.counted, ok.waiting, some_left, none_inside, none_leaving, some_entering) in
    (Reached.acquired t r free some_entering, free)
