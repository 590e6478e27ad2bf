-- ===== src/Kernel/Queue/Backward.antt =====
-- What blt/kernel/queue.c does with the `prev` pointers and at the tail.
use os_open_blt.Base.{ℕ, ◌≡◌, ◌≢◌, false, List, ◌∷◌, arith, ◌==◌}
use os_open_blt.Base.Int.{ℤ}
use os_open_blt.Kernel.Queue.{Heap, queue_add_tail, queue_remove_tail}
use os_open_blt.Kernel.Queue.Forward.{IsQueue, last-ne, last_of}

module _ (q n m : ℕ) (xs : List ℕ) (h : Heap) (is : IsQueue h q (n ∷ m ∷ xs)) where
  -- On a queue of two nodes or more `queue_remove_tail` returns the block of the first node and frees
  -- that node, which stays the head; the tail becomes what the first node has for its `prev`.
  pub queue_remove_tail-first :
      ((queue_remove_tail q h).0.block ≡ h.block n)
      × ((queue_remove_tail q h).1.allocated n ≡ false)
      × ((queue_remove_tail q h).1.head q ≡ n)
      × ((queue_remove_tail q h).1.tail q ≡ h.prev n)
  unfolding queue_remove_tail
  queue_remove_tail-first =
      let some_node : (h.head q == 0) ≡ false = ground arith in
      let far = last-ne n m xs is.distinct.0 in
      let more : (h.tail q == h.head q) ≡ false = ground arith in
      rw (some_node, more) (ground arith, ground arith, ground arith, ground arith)

  -- On a queue of two nodes or more `queue_add_tail` gives the new node the head for its `prev`, and
  -- not the node that was last.
  pub queue_add_tail-prev :
      (k block : ℕ) (dsize : ℤ)
      → ((queue_add_tail q k block dsize h).prev k ≡ n)
        × ((queue_add_tail q k block dsize h).prev k ≢ h.tail q)
  unfolding queue_add_tail
  queue_add_tail-prev k block dsize =
      let some_node : (h.head q == 0) ≡ false = ground arith in
      let far = last-ne n m xs is.distinct.0 in
      let last : h.tail q ≡ last_of m xs = is.last in rw some_node (ground arith, ground arith)
