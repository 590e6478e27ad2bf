-- ===== src/Kernel/Sem/Counts.antt =====
-- Semaphores of blt/kernel/sem.c: the count and the wait queue agree, whatever is called.
use os_open_blt.Base.{
  ℕ, ◌≡◌, ◌≢◌, refl, true, false, Returns, Returns-map, List, [], ◌∷◌, ◌++◌, arith, ◌==◌,
  if◌then◌else◌, mem, length, length-append, ap, Bool-cases, inl, inr,
}
use os_open_blt.Base.Int.{ℤ, pos, negsuc, neg_part, ◌+ℤ◌, ◌-ℤ◌, ltb_ℤ}
use os_open_blt.Kernel.State.{Kernel}
use os_open_blt.Kernel.Resource.{rsrc_find, rsrc_dequeue}
use os_open_blt.Kernel.Sched.{Reply, done, blocked, preempt, wait_on}
use os_open_blt.Kernel.Sched.Switch.{
  Live, Waiting, wait_on-Waiting, Preempted, preempt-Preempted, first_or, rest_of,
}
use os_open_blt.Kernel.Sem.{count_up, count_down, set_sem_count, sem_acquire, sem_release}

-- A count of -n stands for n waiters, and a count that is not negative for none.
abbrev pub SemOk : Kernel → ℕ → Type 0
SemOk k s = length (k.rsrc s).queue ≡ neg_part (k.sem_count s)

-- The semaphore is found under its id and is not the run queue.
pub record IsSem (k : Kernel) (id s : ℕ) : Type 0 where
  pub found : rsrc_find 4 id k ≡ s
  pub real : s ≢ 0
  pub apart : s ≢ k.run_queue

-- With a count above 0 the caller goes on; else it stands at the end of the wait queue and the first
-- ready task runs. The count goes down by one, and no other semaphore's count moves.
pub record Acquired (k : Kernel) (s : ℕ) (r : Reply × Kernel) : Type 0 where
  pub reply : r.0 ≡ (if ltb_ℤ (pos 0) (k.sem_count s) then done (pos 0) else blocked)
  pub counted : r.1.sem_count s ≡ k.sem_count s -ℤ pos 1
  pub other_count : (a : ℕ) → a ≢ s → r.1.sem_count a ≡ k.sem_count a
  pub queue : (r.1.rsrc s).queue ≡ (
      if ltb_ℤ (pos 0) (k.sem_count s)
      then (k.rsrc s).queue
      else (k.rsrc s).queue ++ k.current ∷ [])
  pub runs : r.1.current ≡ (
      if ltb_ℤ (pos 0) (k.sem_count s)
      then k.current
      else first_or k.idle_task (k.rsrc k.run_queue).queue)
  pub ok : SemOk k s → SemOk r.1 s

count_down-sub : (n : ℤ) → ltb_ℤ (negsuc 0x7fffffff) n ≡ true → count_down n ≡ n -ℤ pos 1
unfolding count_down
count_down-sub n room = rw room refl

count_up-add : (n : ℤ) → ltb_ℤ n (pos 0x7fffffff) ≡ true → count_up n ≡ n +ℤ pos 1
unfolding count_up
count_up-add n room = rw room refl

module _ (k : Kernel) (live : Live k) (id s : ℕ) (is : IsSem k id s) where
  abbrev lowered : Kernel
  lowered = set_sem_count s (k.sem_count s -ℤ pos 1) k

  lowered-Live : Live lowered
  unfolding set_sem_count
  lowered-Live = record { some_task = live.some_task; idle = live.idle; no_null = live.no_null }

  slept :
      ltb_ℤ (pos 0) (k.sem_count s) ≡ false
      → (k' : Kernel) → Waiting lowered s k'
      → Acquired k s (blocked, k')
  unfolding set_sem_count
  slept low k' w =
      let queued = w.queued in
      let count = ap (λ f. f s) w.sem_count in
      record {
        reply = rw low refl;
        counted = ground arith;
        other_count = λ a ne. ground (arith, ap (λ f. f a) w.sem_count);
        queue = rw low queued;
        runs = rw low w.current;
        ok = λ ok. ground (arith, length-append (k.rsrc s).queue (k.current ∷ []));
      }

  -- `sem_acquire` of a semaphore that is found under its id, and is not the run queue, gives a reply: see
  -- `Acquired`. There is a live task, the idle task is not dead, no task of the run queue is NULL, and the
  -- count is above the least `int`. The count and the wait queue agree afterwards if they did before.
  pub sem_acquire-Acquired :
      ltb_ℤ (negsuc 0x7fffffff) (k.sem_count s) ≡ true → Returns (Acquired k s) (sem_acquire id k)
  unfolding sem_acquire set_sem_count
  sem_acquire-Acquired room =
      let real : (s == 0) ≡ false = ground (arith, is.real) in
      rw (is.found, real, count_down-sub (k.sem_count s) room)
        (elim (Bool-cases (ltb_ℤ (pos 0) (k.sem_count s))) [
          | inl up ↦ rw up (record {
            reply = rw up refl;
            counted = ground arith;
            other_count = λ a ne. ground arith;
            queue = rw up refl;
            runs = rw up refl;
            ok = λ ok. ground arith;
          })
          | inr low ↦ rw low (
              Returns-map (wait_on s lowered) (Acquired k s) (λ k'. (blocked, k')) (slept low)
                (wait_on-Waiting lowered lowered-Live s is.apart))
        ])

-- The first waiter, if there is one, runs in place of the caller, with ERR_NONE; it has left the wait
-- queue. The count goes up by one, and no other semaphore's count moves.
pub record ReleasedOne (k : Kernel) (s : ℕ) (r : ℤ × Kernel) : Type 0 where
  pub reply : r.0 ≡ pos 0
  pub counted : r.1.sem_count s ≡ k.sem_count s +ℤ pos 1
  pub other_count : (a : ℕ) → a ≢ s → r.1.sem_count a ≡ k.sem_count a
  pub queue : (r.1.rsrc s).queue ≡ rest_of (k.rsrc s).queue
  pub runs : r.1.current ≡ first_or k.current (k.rsrc s).queue
  pub told : (k.rsrc s).queue ≢ [] → (r.1.task r.1.current).status ≡ pos 0
  pub ok : SemOk k s → SemOk r.1 s

-- What the first task's leaving does to the wait queue and to the rest.
record Dequeued (k : Kernel) (s t : ℕ) (rest : List ℕ) (r : ℕ × Kernel) : Type 0 where
  task : r.0 ≡ t
  queue : (r.1.rsrc s).queue ≡ rest
  run_queue : r.1.run_queue ≡ k.run_queue
  sem_count : (a : ℕ) → r.1.sem_count a ≡ k.sem_count a

dequeued :
    (s t : ℕ) (rest : List ℕ) (k : Kernel)
    → (k.rsrc s).queue ≡ t ∷ rest
    → Dequeued k s t rest (rsrc_dequeue s k)
unfolding rsrc_dequeue
dequeued s t rest k e =
    rw (e, rsrc_dequeue)
      (record { task = refl; queue = ground arith; run_queue = refl; sem_count = λ a. refl })

dequeue-nil : (s : ℕ) (k : Kernel) → (k.rsrc s).queue ≡ [] → rsrc_dequeue s k ≡ (0, k)
unfolding rsrc_dequeue
dequeue-nil s k e = rw (e, rsrc_dequeue) refl

module _ (k : Kernel) (id s : ℕ) (is : IsSem k id s) where
  abbrev raised : Kernel
  raised = set_sem_count s (k.sem_count s +ℤ pos 1) k

  woke :
      (t : ℕ) (rest : List ℕ)
      → (k.rsrc s).queue ≡ t ∷ rest
      → (k' : Kernel) → Preempted (rsrc_dequeue s raised).1 t (pos 0) k'
      → ReleasedOne k s (pos 0, k')
  unfolding set_sem_count
  woke t rest e k' p =
      let apart = is.apart in
      let left = dequeued s t rest raised e in
      let count = λ (a : ℕ). ap (λ (f : ℕ → ℤ). f a) p.sem_count in
      record {
        reply = refl;
        counted = ground (arith, count s, left.sem_count s);
        other_count = λ a ne. ground (arith, count a, left.sem_count a);
        queue = rw e (ground (arith, p.other_queue s, left.queue, left.run_queue));
        runs = rw e p.current;
        told = λ ne. ground (arith, p.current, p.told);
        ok = λ ok. ground (
          arith,
          count s,
          left.sem_count s,
          p.other_queue s,
          left.queue,
          left.run_queue,
          ap length e,
        );
      }

  released :
      (q : List ℕ)
      → (k.rsrc s).queue ≡ q
      → mem 0 q ≡ false
      → mem 3 q ≡ false
      → ltb_ℤ (k.sem_count s) (pos 0x7fffffff) ≡ true
      → Returns (ReleasedOne k s) (sem_release id k)
  unfolding sem_release set_sem_count
  released [] e z h room =
      let real : (s == 0) ≡ false = ground (arith, is.real) in
      rw (is.found, real, count_up-add (k.sem_count s) room, dequeue-nil s raised e)
        (record {
          reply = refl;
          counted = ground arith;
          other_count = λ a ne. ground arith;
          queue = rw e refl;
          runs = rw e refl;
          told = λ ne. absurd (ne e);
          ok = λ ok. ground (arith, ap length e);
        })
  released (t ∷ rest) e z h room =
      let real : (s == 0) ≡ false = ground (arith, is.real) in
      let some_task : (t == 0) ≡ false = ground arith in
      let d = dequeued s t rest raised e in
      rw (is.found, real, count_up-add (k.sem_count s) room, d.task, some_task)
        (Returns-map (preempt t (pos 0) (rsrc_dequeue s raised).1) (ReleasedOne k s)
          (λ k'. (pos 0, k')) (woke t rest e)
          (preempt-Preempted (rsrc_dequeue s raised).1 t (pos 0) (ground arith)))

  -- `sem_release` of a semaphore that is found under its id, and is not the run queue, ends well: see
  -- `ReleasedOne`. No waiter has the address NULL or 3, and the count is below the greatest `int`. The
  -- count and the wait queue agree afterwards if they did before.
  pub sem_release-ReleasedOne :
      mem 0 (k.rsrc s).queue ≡ false
      → mem 3 (k.rsrc s).queue ≡ false
      → ltb_ℤ (k.sem_count s) (pos 0x7fffffff) ≡ true
      → Returns (ReleasedOne k s) (sem_release id k)
  sem_release-ReleasedOne = released (k.rsrc s).queue refl
