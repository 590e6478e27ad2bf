-- ===== src/Kernel/Resource/Release.antt =====
-- `rsrc_release` of blt/kernel/resource.c: the loop that wakes the blocked tasks ends, every one of
-- them becomes runnable with ERR_RESOURCE, and the id is free again.
use os_open_blt.Base.{
  ℕ, zero, suc, ◌<◌, ◌≡◌, ◌≢◌, refl, true, false, List, [], ◌∷◌, ◌++◌, arith, mem, length, Returns,
  Returns-map, Returns-mono, ap, Chain-start, Chain-frame, ◌∙◌,
}
use mathlib.Core.List.{append-nil, append_assoc}
use os_open_blt.Kernel.State.{Kernel, set_queue}
use os_open_blt.Kernel.Resource.{
  err_resource, wake_all, task_wake, unchain, give_back, rsrc_release, rsrc_find,
}
use os_open_blt.Kernel.Resource.Table.{TableOk, InTable, Freed, give_back-Freed}

-- The tasks `ts` of the queue of `r` have been moved, in order, to the end of the run queue, each with
-- ERR_RESOURCE as its status, and nothing else has changed.
pub record Woken (k : Kernel) (r : ℕ) (ts : List ℕ) (k' : Kernel) : Type 0 where
  pub rmap_resource : k'.rmap_resource ≡ k.rmap_resource
  pub rmap_next : k'.rmap_next ≡ k.rmap_next
  pub rmax : k'.rmax ≡ k.rmax
  pub rfree : k'.rfree ≡ k.rfree
  pub null_resource : k'.null_resource ≡ k.null_resource
  pub run_queue : k'.run_queue ≡ k.run_queue
  pub port : k'.port ≡ k.port
  pub sem_count : k'.sem_count ≡ k.sem_count
  pub same_id : (a : ℕ) → (k'.rsrc a).id ≡ (k.rsrc a).id
  pub same_type : (a : ℕ) → (k'.rsrc a).type ≡ (k.rsrc a).type
  pub emptied : (k'.rsrc r).queue ≡ []
  pub runnable : (k'.rsrc k.run_queue).queue ≡ (k.rsrc k.run_queue).queue ++ ts
  pub other_queue : (a : ℕ) → a ≢ r → a ≢ k.run_queue → (k'.rsrc a).queue ≡ (k.rsrc a).queue
  pub told : (t : ℕ) → mem t ts ≡ true → (k'.task t).status ≡ err_resource
  pub moved : (t : ℕ) → mem t ts ≡ true → (k'.task t).waiting_on ≡ k.run_queue
  pub other_task : (t : ℕ) → mem t ts ≡ false → k'.task t ≡ k.task t

module _ (r t : ℕ) (rest : List ℕ) (k : Kernel) (ne : r ≢ k.run_queue) where
  abbrev after_one : Kernel
  after_one = task_wake t err_resource (set_queue r rest k)

  queue_left : (after_one.rsrc r).queue ≡ rest
  unfolding task_wake
  queue_left = ground arith

  Woken-cons :
      (k.rsrc r).queue ≡ t ∷ rest
      → (k' : Kernel) → Woken after_one r rest k'
      → Woken k r (t ∷ rest) k'
  unfolding task_wake
  Woken-cons e k' w = record {
    rmap_resource = w.rmap_resource;
    rmap_next = w.rmap_next;
    rmax = w.rmax;
    rfree = w.rfree;
    null_resource = w.null_resource;
    run_queue = w.run_queue;
    port = w.port;
    sem_count = w.sem_count;
    same_id = λ a. ground (arith, w.same_id a);
    same_type = λ a. ground (arith, w.same_type a);
    emptied = w.emptied;
    runnable = ground (arith, w.runnable, append_assoc (k.rsrc k.run_queue).queue (t ∷ []) rest);
    other_queue = λ a n m. ground (arith, w.other_queue a);
    told = λ a m. ground (arith, w.told a, w.other_task a);
    moved = λ a m. ground (arith, w.moved a, w.other_task a);
    other_task = λ a m. ground (arith, w.other_task a);
  }

pub wake_all-Woken :
    (fuel r : ℕ) (ts : List ℕ) (k : Kernel)
    → (k.rsrc r).queue ≡ ts
    → r ≢ k.run_queue
    → length ts < fuel
    → Returns (Woken k r ts) (wake_all fuel r k)
unfolding wake_all
wake_all-Woken zero r ts k e ne enough = absurd (omega arith)
wake_all-Woken (suc fuel) r [] k e ne enough =
    rw (e, wake_all)
      (record {
        rmap_resource = refl;
        rmap_next = refl;
        rmax = refl;
        rfree = refl;
        null_resource = refl;
        run_queue = refl;
        port = refl;
        sem_count = refl;
        same_id = λ a. refl;
        same_type = λ a. refl;
        emptied = e;
        runnable = rw append-nil refl;
        other_queue = λ a n m. refl;
        told = λ t m. cc;
        moved = λ t m. cc;
        other_task = λ t m. refl;
      })
wake_all-Woken (suc fuel) r (t ∷ rest) k e ne enough =
    rw (e, wake_all)
      (Returns-mono _ (Woken-cons r t rest k ne e) (
        wake_all-Woken fuel r rest (after_one r t rest k ne) (queue_left r t rest k ne) ne
          (omega arith)))

pub record Quiet (k k' : Kernel) : Type 0 where
  pub port : k'.port ≡ k.port
  pub sem_count : k'.sem_count ≡ k.sem_count
  pub run_queue : k'.run_queue ≡ k.run_queue

module _ {k : Kernel} {r : ℕ} {ts : List ℕ} {k' : Kernel} (w : Woken k r ts k') where
  entry_same : (j : ℕ) → k'.rmap_resource j ≡ k.rmap_resource j
  entry_same j = ap (λ f. f j) w.rmap_resource

  Woken-rsrc_find : (t j : ℕ) → rsrc_find t j k' ≡ rsrc_find t j k
  unfolding rsrc_find
  Woken-rsrc_find t j =
      let rmax = w.rmax in ground (arith, entry_same j, w.same_type (k.rmap_resource j))

  Woken-TableOk : (free : List ℕ) → TableOk k free → TableOk k' free
  Woken-TableOk free ok =
      let rmax = w.rmax in
      let null_resource = w.null_resource in
      let null_type = ok.null_type in
      let zeroth = ok.zeroth in
      record {
        chain =
            Chain-start _ free w.rfree
              (Chain-frame _ _ k.rfree free (λ x m. ap (λ f. f x) w.rmap_next) ok.chain);
        distinct = ok.distinct;
        below = λ i m. ground (arith, ok.below i);
        vacant = λ i m. ground (arith, ok.vacant i, entry_same i);
        zeroth = ground (arith, entry_same 0);
        null_type = ground (arith, w.same_type k.null_resource);
        known = λ i low nz out. ground (
          arith,
          entry_same i,
          w.same_id (k.rmap_resource i),
          w.same_type (k.rmap_resource i),
          ok.known i,
        );
      }

module _ (k : Kernel) (r : ℕ) (ne : r ≢ k.run_queue) where
  unchained-Woken :
      Returns
        (Woken (unchain r k) r (k.rsrc r).queue)
        (wake_all (suc (length (k.rsrc r).queue)) r (unchain r k))
  unfolding unchain
  unchained-Woken =
      wake_all-Woken (suc (length (k.rsrc r).queue)) r (k.rsrc r).queue (unchain r k) refl ne
        (omega arith)

  -- Whatever the resource, but the run queue, `rsrc_release` ends and touches no port and no count.
  pub rsrc_release-Quiet : Returns (Quiet k) (rsrc_release r k)
  unfolding rsrc_release give_back unchain
  rsrc_release-Quiet =
      Returns-map (wake_all (suc (length (k.rsrc r).queue)) r (unchain r k)) (Quiet k)
        (give_back r (k.rsrc r).id)
        (λ k2 w. record { port = w.port; sem_count = w.sem_count; run_queue = w.run_queue })
        unchained-Woken

-- The id is free and finds nothing; no other id is touched; the tasks that were blocked on the
-- resource stand at the end of the run queue, in order, each with ERR_RESOURCE.
pub record Released (k : Kernel) (r i : ℕ) (free : List ℕ) (k' : Kernel) : Type 0 where
  pub freed : Freed k i free k'
  pub runnable : (k'.rsrc k.run_queue).queue ≡ (k.rsrc k.run_queue).queue ++ (k.rsrc r).queue
  pub told : (t : ℕ) → mem t (k.rsrc r).queue ≡ true → (k'.task t).status ≡ err_resource
  pub moved : (t : ℕ) → mem t (k.rsrc r).queue ≡ true → (k'.task t).waiting_on ≡ k.run_queue
  pub other_task : (t : ℕ) → mem t (k.rsrc r).queue ≡ false → k'.task t ≡ k.task t

module _ (k : Kernel) (r i : ℕ) (free : List ℕ) (ok : TableOk k free) (inside : InTable k r i free)
    (ne : r ≢ k.run_queue) where
  unchained-TableOk : TableOk (unchain r k) free
  unfolding unchain
  unchained-TableOk = record {
    chain = ok.chain;
    distinct = ok.distinct;
    below = ok.below;
    vacant = ok.vacant;
    zeroth = ok.zeroth;
    null_type = ok.null_type;
    known = ok.known;
  }

  give_back-Released :
      (k2 : Kernel)
      → Woken (unchain r k) r (k.rsrc r).queue k2
      → Released k r i free (give_back r i k2)
  unfolding give_back unchain rsrc_find
  give_back-Released k2 w =
      let at : InTable k2 r i free = record {
        low = ground (arith, w.rmax, inside.low);
        nonzero = inside.nonzero;
        taken = inside.taken;
        entry = entry_same w i ∙ inside.entry;
        not_null = ground (arith, w.null_resource, inside.not_null);
      } in
      let freed = give_back-Freed k2 r i free (Woken-TableOk w free unchained-TableOk) at in
      record {
        freed = record {
          table = freed.table;
          gone = freed.gone;
          other_id = λ t j n. freed.other_id t j n ∙ Woken-rsrc_find w t j;
        };
        runnable = ground (arith, w.runnable);
        told = w.told;
        moved = w.moved;
        other_task = w.other_task;
      }

  -- `rsrc_release` of a resource in the table, other than the run queue, ends: its id is free
  -- again and finds nothing, no other id is touched, and the tasks that were blocked on it stand
  -- at the end of the run queue, in order, each with ERR_RESOURCE; no other task has changed.
  pub rsrc_release-Released : Returns (Released k r i free) (rsrc_release r k)
  unfolding rsrc_release
  rsrc_release-Released =
      let id : (k.rsrc r).id ≡ i =
        ground (arith, ok.known i inside.low inside.nonzero inside.taken, inside.entry) in
      rw id (
        Returns-map _ (Released k r i free) (give_back r i) give_back-Released
          (unchained-Woken k r ne))
