-- ===== src/Kernel/Resource/Queues.antt =====
-- The wait queues of blt/kernel/resource.c: a task stands on one queue at most, the one that it waits
-- on, and queues are first in, first out.
use os_open_blt.Base.{
  ℕ, ◌≡◌, refl, true, false, List, [], ◌∷◌, ◌++◌, arith, mem, Distinct, mem-append,
}
use os_open_blt.Kernel.State.{Kernel}
use os_open_blt.Kernel.Resource.{rsrc_enqueue, rsrc_dequeue}

pub record QueuesOk (k : Kernel) : Type 0 where
  pub distinct : (r : ℕ) → Distinct (k.rsrc r).queue
  pub waits : (r t : ℕ) → mem t (k.rsrc r).queue ≡ true → (k.task t).waiting_on ≡ r

-- The task stands on no queue.
abbrev pub OffQueues : Kernel → ℕ → Type 0
OffQueues k t = (r : ℕ) → mem t (k.rsrc r).queue ≡ false

Distinct-snoc : (xs : List ℕ) (n : ℕ) → Distinct xs → mem n xs ≡ false → Distinct (xs ++ n ∷ [])
Distinct-snoc [] n d m = (refl, tt)
Distinct-snoc (x ∷ xs) n d m =
    (ground (arith, mem-append x xs (n ∷ [])), Distinct-snoc xs n d.1 (ground arith))

module _ (k : Kernel) (ok : QueuesOk k) (r t : ℕ) where
  -- A task that stands on no queue may be put on any.
  pub rsrc_enqueue-QueuesOk : OffQueues k t → QueuesOk (rsrc_enqueue r t k)
  unfolding rsrc_enqueue
  rsrc_enqueue-QueuesOk off = record {
    distinct = λ a.
        ground (arith, ok.distinct a, Distinct-snoc (k.rsrc a).queue t (ok.distinct a) (off a));
    waits = λ a u m. ground (arith, ok.waits a u, off a, mem-append u (k.rsrc a).queue (t ∷ []));
  }

  -- The task that leaves a queue is its first one, the others stay in order, and it is on no queue.
  pub rsrc_dequeue-QueuesOk :
      (rest : List ℕ)
      → (k.rsrc r).queue ≡ t ∷ rest
      → ((rsrc_dequeue r k).0 ≡ t)
        × (((rsrc_dequeue r k).1.rsrc r).queue ≡ rest)
        × QueuesOk (rsrc_dequeue r k).1
        × OffQueues (rsrc_dequeue r k).1 t
  unfolding rsrc_dequeue
  rsrc_dequeue-QueuesOk rest e =
      let d : Distinct (t ∷ rest) = rw e at (ok.distinct r) in
      let waits_t = ok.waits r t in
      rw (e, rsrc_dequeue)
        (
          refl,
          ground arith,
          record {
            distinct = λ a. ground (arith, ok.distinct a);
            waits = λ a u m. ground (arith, ok.waits a u, ok.waits r u, ok.waits a t);
          },
          λ a. ground (arith, ok.waits a t),
        )
