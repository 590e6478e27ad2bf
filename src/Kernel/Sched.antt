-- ===== src/Kernel/Sched.antt =====
-- The scheduler: `wait_on` and `thr_wait` of blt/kernel/task.c, `preempt` and `swtch` of kernel.c.
-- `none` is a panic, or the end of the kernel when no task is left. The machine's part of a switch
-- (stacks, page tables, the task segment) is left out: after `swtch` or `preempt` the new current task
-- runs, and what the old one still has to do happens when it becomes current again.
pub mod Switch
pub mod Tests
use mathlib.Core.Option
use os_open_blt.Base.{
  ℕ, ◌+◌, Bool, true, false, ◌&&◌, not, Option, none, some, List, [], ◌∷◌, ◌==◌, if◌then◌else◌,
  length,
}
use os_open_blt.Base.Int.{ℤ, pos}
use os_open_blt.Kernel.State.{Flags, t_running, t_dead, Task, Kernel, set_task}
use os_open_blt.Kernel.Resource.{err_resource, rsrc_find, rsrc_enqueue, rsrc_dequeue}

-- What a system call has come to when the kernel is left: its value, or the caller is blocked.
pub data Reply : Type 0 where
  done : ℤ → Reply
  blocked : Reply

abbrev pub is_running : Flags → Bool
is_running t_running = true
is_running _ = false

abbrev pub is_dead : Flags → Bool
is_dead t_dead = true
is_dead _ = false

-- The new current task starts to run.
pub run_current : Kernel → Kernel
unfolding set_task
run_current k =
    let t = k.task k.current in
    set_task k.current (record t { flags = t_running; scount = t.scount + 1 }) k

-- The last part of `swtch`: `k` is the state after the run queue has given `next`, or NULL.
pub pick : ℕ → Kernel → Option Kernel
unfolding run_current
pick next k =
    if next == 0
    then (if k.live_tasks == 0
        then none
        else (let k1 = record k { current = k.idle_task } in
            if is_dead (k1.task k1.current).flags then none else some (run_current k1)))
    else (let k1 = record k { current = next } in
        if is_dead (k1.task k1.current).flags then none else some (run_current k1))

-- The current task goes back to the run queue if it is running and not the idle one.
pub requeue : Kernel → Kernel
requeue k =
    if is_running (k.task k.current).flags && not (k.current == k.idle_task)
    then rsrc_enqueue k.run_queue k.current k
    else k

pub swtch : Kernel → Option Kernel
swtch k =
    if (length (k.rsrc k.run_queue).queue == 0) && is_running (k.task k.current).flags
    then some k
    else (let k1 = requeue k in let (next, k2) = rsrc_dequeue k1.run_queue k1 in pick next k2)

-- `(task_t *) tDEAD` is the address 3.
pub preempt : ℕ → ℤ → Kernel → Option Kernel
preempt t status k =
    let k1 = if not (k.current == k.idle_task) then rsrc_enqueue k.run_queue k.current k else k in
    if t == 3
    then none
    else (let k2 = record k1 { current = t } in
        some (run_current (set_task t (record (k2.task t) { status = status }) k2)))

-- The state in which the next task runs; the caller's result is `wait_status`, once it is current.
pub wait_on : ℕ → Kernel → Option Kernel
wait_on r k =
    let t = k.current in
    let k1 = set_task t (record (k.task t) { status = pos 0 }) k in swtch (rsrc_enqueue r t k1)

unfoldable pub wait_status : Kernel → ℤ
wait_status k = (k.task k.current).status

-- `ERR_NONE` follows when the caller runs again, whatever its status.
unfoldable thr_wait : ℕ → Kernel → Option (Reply × Kernel)
thr_wait id k =
    let t = rsrc_find 1 id k in
    if t == 0 then some (done err_resource, k) else Option.map (λ k'. (blocked, k')) (wait_on t k)
