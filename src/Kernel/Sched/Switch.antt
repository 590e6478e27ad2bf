-- ===== src/Kernel/Sched/Switch.antt =====
-- What a switch of blt/kernel/kernel.c does: which task runs next, and what it leaves alone.
use os_open_blt.Base.{
  ℕ, ◌≡◌, ◌≢◌, refl, false, Returns, Returns-mono, List, [], ◌∷◌, ◌++◌, arith, ◌==◌, if◌then◌else◌,
  update, mem,
}
use os_open_blt.Base.Int.{ℤ, pos}
use os_open_blt.Kernel.State.{Kernel, set_task, t_running, t_dead, t_ready}
use os_open_blt.Kernel.Resource.{rsrc_enqueue, rsrc_dequeue}
use os_open_blt.Kernel.Sched.{
  is_running, is_dead, run_current, pick, requeue, swtch, preempt, wait_on,
}

-- The kernel goes on: a task is alive, the idle task is not dead, and no queued task has the address NULL.
pub record Live (k : Kernel) : Type 0 where
  pub some_task : k.live_tasks ≢ 0
  pub idle : (k.task k.idle_task).flags ≢ t_dead
  pub no_null : mem 0 (k.rsrc k.run_queue).queue ≡ false

abbrev pub first_or : ℕ → List ℕ → ℕ
first_or d [] = d
first_or d (x ∷ xs) = x

abbrev pub rest_of : List ℕ → List ℕ
rest_of [] = []
rest_of (x ∷ xs) = xs

-- The first task of the run queue runs, or the idle task if there is none; nothing but the run queue
-- and that task has changed.
pub record Switched (k k' : Kernel) : Type 0 where
  pub current : k'.current ≡ first_or k.idle_task (k.rsrc k.run_queue).queue
  pub running : (k'.task k'.current).flags ≡ t_running
  pub left : (k'.rsrc k.run_queue).queue ≡ rest_of (k.rsrc k.run_queue).queue
  pub other_queue : (a : ℕ) → a ≢ k.run_queue → k'.rsrc a ≡ k.rsrc a
  pub other_task : (t : ℕ) → t ≢ k'.current → k'.task t ≡ k.task t
  pub same_status : (t : ℕ) → (k'.task t).status ≡ (k.task t).status
  pub sem_count : k'.sem_count ≡ k.sem_count
  pub port : k'.port ≡ k.port
  pub run_queue : k'.run_queue ≡ k.run_queue
  pub idle_task : k'.idle_task ≡ k.idle_task

swtch-stopped :
    (k : Kernel)
    → is_running (k.task k.current).flags ≡ false
    → swtch k ≡ pick (rsrc_dequeue k.run_queue k).0 (rsrc_dequeue k.run_queue k).1
unfolding swtch requeue
swtch-stopped k stopped = ground arith

module _ (k : Kernel) (live : Live k) where
  pick-Switched :
      (q : List ℕ)
      → (k.rsrc k.run_queue).queue ≡ q
      → mem 0 q ≡ false
      → Returns (Switched k) (pick (rsrc_dequeue k.run_queue k).0 (rsrc_dequeue k.run_queue k).1)
  unfolding pick rsrc_dequeue
  pick-Switched [] e no_null =
      let some_task = live.some_task in
      let idle = live.idle in
      let alive : (k.live_tasks == 0) ≡ false = ground arith in
      let not_dead : is_dead (k.task k.idle_task).flags ≡ false = ground arith in
      rw (e, rsrc_dequeue)
        (rw (alive, not_dead)
          (record {
            current = rw e refl;
            running = ground arith;
            left = rw e refl;
            other_queue = λ a ne. refl;
            other_task = λ t ne. ground arith;
            same_status = λ t. ground arith;
            sem_count = refl;
            port = refl;
            run_queue = refl;
            idle_task = refl;
          }))
  pick-Switched (n ∷ rest) e no_null =
      let real : (n == 0) ≡ false = ground arith in
      let same : update k.task n (record (k.task n) { waiting_on = 0; flags = t_ready }) n
          ≡ record (k.task n) { waiting_on = 0; flags = t_ready } =
        ground arith in
      rw (e, rsrc_dequeue)
        (rw (real, same)
          (record {
            current = rw e refl;
            running = ground arith;
            left = ground arith;
            other_queue = λ a ne. ground arith;
            other_task = λ t ne. ground arith;
            same_status = λ t. ground arith;
            sem_count = refl;
            port = refl;
            run_queue = refl;
            idle_task = refl;
          }))

  -- A task that is not running gives the processor to the next one.
  pub swtch-Switched : is_running (k.task k.current).flags ≡ false → Returns (Switched k) (swtch k)
  swtch-Switched stopped =
      rw (swtch-stopped k stopped) (pick-Switched (k.rsrc k.run_queue).queue refl live.no_null)

-- The caller stands at the end of the queue of `r` and the next task runs; no semaphore, no port and
-- no other queue but the run queue has changed.
pub record Waiting (k : Kernel) (r : ℕ) (k' : Kernel) : Type 0 where
  pub queued : (k'.rsrc r).queue ≡ (k.rsrc r).queue ++ k.current ∷ []
  pub current : k'.current ≡ first_or k.idle_task (k.rsrc k.run_queue).queue
  pub running : (k'.task k'.current).flags ≡ t_running
  pub left : (k'.rsrc k.run_queue).queue ≡ rest_of (k.rsrc k.run_queue).queue
  pub other_queue : (a : ℕ) → a ≢ r → a ≢ k.run_queue → k'.rsrc a ≡ k.rsrc a
  pub pending : (k'.task k.current).status ≡ pos 0
  pub waits : k'.current ≢ k.current → (k'.task k.current).waiting_on ≡ r
  pub sem_count : k'.sem_count ≡ k.sem_count
  pub port : k'.port ≡ k.port
  pub run_queue : k'.run_queue ≡ k.run_queue
  pub idle_task : k'.idle_task ≡ k.idle_task

module _ (k : Kernel) (live : Live k) (r : ℕ) (ne : r ≢ k.run_queue) where
  abbrev asleep : Kernel
  asleep =
      rsrc_enqueue r k.current (set_task k.current (record (k.task k.current) { status = pos 0 }) k)

  asleep-Live : Live asleep
  unfolding rsrc_enqueue
  asleep-Live =
      let idle = live.idle in
      record {
        some_task = live.some_task;
        idle = ground arith;
        no_null = ground (arith, live.no_null);
      }

  asleep-stopped : is_running (asleep.task asleep.current).flags ≡ false
  unfolding rsrc_enqueue
  asleep-stopped = ground arith

  Switched-Waiting : (k' : Kernel) → Switched asleep k' → Waiting k r k'
  unfolding rsrc_enqueue
  Switched-Waiting k' s = record {
    queued = ground (arith, s.other_queue r);
    current = ground (arith, s.current);
    running = s.running;
    left = ground (arith, s.left);
    other_queue = λ a nr nq. ground (arith, s.other_queue a);
    pending = ground (arith, s.same_status k.current);
    waits = λ n. ground (arith, s.other_task k.current);
    sem_count = s.sem_count;
    port = s.port;
    run_queue = s.run_queue;
    idle_task = s.idle_task;
  }

  -- `wait_on` puts the caller at the end of the queue, with no status yet, and starts the first task
  -- of the run queue, or the idle task if no task is ready.
  pub wait_on-Waiting : Returns (Waiting k r) (wait_on r k)
  unfolding wait_on
  wait_on-Waiting =
      Returns-mono (swtch asleep) Switched-Waiting
        (swtch-Switched asleep asleep-Live asleep-stopped)

-- The first waiter of a queue is made to run in place of the caller, which goes to the end of the run
-- queue, unless it is the idle task.
pub record Preempted (k : Kernel) (t : ℕ) (status : ℤ) (k' : Kernel) : Type 0 where
  pub current : k'.current ≡ t
  pub told : (k'.task t).status ≡ status
  pub running : (k'.task t).flags ≡ t_running
  pub requeued : (k'.rsrc k.run_queue).queue ≡ (
      if k.current == k.idle_task
      then (k.rsrc k.run_queue).queue
      else (k.rsrc k.run_queue).queue ++ k.current ∷ [])
  pub other_queue : (a : ℕ) → a ≢ k.run_queue → k'.rsrc a ≡ k.rsrc a
  pub sem_count : k'.sem_count ≡ k.sem_count
  pub port : k'.port ≡ k.port

-- `preempt` makes the given task current and running with the given status; the caller goes to
-- the end of the run queue, unless it is the idle task; no semaphore, no port and no other queue
-- changes. The task does not have the address 3.
pub preempt-Preempted :
    (k : Kernel) (t : ℕ) (status : ℤ) → t ≢ 3 → Returns (Preempted k t status) (preempt t status k)
unfolding preempt rsrc_enqueue run_current
preempt-Preempted k t status ne =
    let alive : (t == 3) ≡ false = ground arith in
    rw alive (record {
      current = refl;
      told = ground arith;
      running = ground arith;
      requeued = ground arith;
      other_queue = λ a n. ground arith;
      sem_count = ground arith;
      port = ground arith;
    })
