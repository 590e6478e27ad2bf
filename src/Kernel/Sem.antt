-- ===== src/Kernel/Sem.antt =====
-- blt/kernel/sem.c: counting semaphores. A count below 0 counts the waiters. A blocked `sem_acquire`
-- goes on by `sem_acquire_resumed` when its task runs again. A count is an `int`,
-- which wraps around.
pub mod Counts
pub mod Tests
use mathlib.Core.Option
use os_open_blt.Base.{ℕ, Bool, Option, none, some, List, ◌==◌, if◌then◌else◌, update}
use os_open_blt.Base.Int.{ℤ, pos, negsuc, ◌+ℤ◌, ◌-ℤ◌, ltb_ℤ}
use os_open_blt.Kernel.State.{Kernel, rsrc_sem}
use os_open_blt.Kernel.Resource.{
  err_resource, rsrc_find, rsrc_bind, rsrc_set_name, rsrc_release, rsrc_dequeue,
}
use os_open_blt.Kernel.Sched.{Reply, done, blocked, preempt, wait_on, wait_status}

-- `s->count++` of an `int`.
unfoldable pub count_up : ℤ → ℤ
count_up n = if ltb_ℤ n (pos 0x7fffffff) then n +ℤ pos 1 else negsuc 0x7fffffff

-- `s->count--` of an `int`.
unfoldable pub count_down : ℤ → ℤ
count_down n = if ltb_ℤ (negsuc 0x7fffffff) n then n -ℤ pos 1 else pos 0x7fffffff

pub set_sem_count : ℕ → ℤ → Kernel → Kernel
unfolding update
set_sem_count s n k = record k { sem_count = update k.sem_count s n }

-- `s` is what `kmalloc` returns; the new semaphore belongs to the owner of the current task.
unfoldable sem_create : ℕ → ℤ → Option (List ℕ) → Kernel → Option (ℕ × Kernel)
sem_create s count name k =
    Option.map (λ k1. let k2 = rsrc_set_name s name k1 in ((k2.rsrc s).id, k2))
      (rsrc_bind s rsrc_sem (k.rsrc k.current).owner (set_sem_count s count k))

unfoldable sem_destroy : ℕ → Kernel → Option (ℤ × Kernel)
sem_destroy id k =
    let s = rsrc_find 4 id k in
    if s == 0 then some (err_resource, k) else Option.map (λ k'. (pos 0, k')) (rsrc_release s k)

pub sem_acquire : ℕ → Kernel → Option (Reply × Kernel)
sem_acquire id k =
    let s = rsrc_find 4 id k in
    let k1 = set_sem_count s (count_down (k.sem_count s)) k in
    if s == 0
    then some (done err_resource, k)
    else if ltb_ℤ (pos 0) (k.sem_count s)
    then some (done (pos 0), k1)
    else Option.map (λ k'. (blocked, k')) (wait_on s k1)

-- The caller is current again: what it was woken with is its result.
unfoldable sem_acquire_resumed : Kernel → ℤ
sem_acquire_resumed k = wait_status k

pub sem_release : ℕ → Kernel → Option (ℤ × Kernel)
sem_release id k =
    let s = rsrc_find 4 id k in
    let k1 = set_sem_count s (count_up (k.sem_count s)) k in
    let (t, k2) = rsrc_dequeue s k1 in
    if s == 0
    then some (err_resource, k)
    else if t == 0
    then some (pos 0, k2)
    else Option.map (λ k'. (pos 0, k')) (preempt t (pos 0) k2)
