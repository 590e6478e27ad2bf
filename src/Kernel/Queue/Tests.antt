-- ===== src/Kernel/Queue/Tests.antt =====
-- The theorems about blt/kernel/queue.c at a queue of two nodes, built by its own functions.
use os_open_blt.Base.{◌≡◌, refl, false, [], ◌∷◌, arith}
use os_open_blt.Base.Int.{pos}
use os_open_blt.Kernel.Queue.{Heap, queue_new, queue_add_tail, queue_remove_tail}
use os_open_blt.Kernel.Queue.Forward.{IsQueue, queue_new-IsQueue, queue_add_tail-IsQueue}

abbrev zeros : Heap
zeros = record {
  next = λ _. 0;
  prev = λ _. 0;
  block = λ _. 0;
  dsize = λ _. pos 0;
  count = λ _. pos 0;
  limit = λ _. pos 0;
  head = λ _. 0;
  tail = λ _. 0;
  allocated = λ _. false;
}

abbrev one : Heap
one = queue_add_tail 9 1 70 (pos 4) (queue_new 9 (pos 8) zeros)

abbrev two : Heap
two = queue_add_tail 9 2 80 (pos 5) one

one-IsQueue : IsQueue one 9 (1 ∷ [])
one-IsQueue =
    queue_add_tail-IsQueue 9 1 70 (pos 4) [] _ (queue_new-IsQueue 9 (pos 8) zeros) refl
      (omega arith)

two-IsQueue : IsQueue two 9 (1 ∷ 2 ∷ [])
two-IsQueue = queue_add_tail-IsQueue 9 2 80 (pos 5) (1 ∷ []) one one-IsQueue refl (omega arith)

-- The second block that is taken from the tail of a queue of two is the first one again.
taken_twice : (queue_remove_tail 9 two).0.block ≡ 70
unfolding queue_remove_tail queue_add_tail queue_new
taken_twice = refl
