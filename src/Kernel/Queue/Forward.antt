-- ===== src/Kernel/Queue/Forward.antt =====
-- What blt/kernel/queue.c gets right: the chain of the `next` pointers.
use os_open_blt.Base.{
  ◌==◌, ℕ, ◌≡◌, ◌≢◌, refl, true, false, some, none, List, [], ◌∷◌, ◌++◌, arith, length, mem,
  Distinct, length-append, mem-append,
}
use os_open_blt.Base.Int.{ℤ, pos}
use os_open_blt.Base.{Chain, Chain-start, Chain-frame, ne_of_mem}
use os_open_blt.Kernel.Queue.{
  Heap, queue_new, queue_add_head, queue_add_tail, queue_remove_head, Taken,
}

-- The last node, or NULL.
abbrev pub last_of : ℕ → List ℕ → ℕ
last_of p [] = p
last_of p (x ∷ xs) = last_of x xs

pub record IsQueue (h : Heap) (q : ℕ) (xs : List ℕ) : Type 0 where
  pub chain : Chain h.next (h.head q) xs
  pub last : h.tail q ≡ last_of 0 xs
  pub distinct : Distinct xs
  pub counted : h.count q ≡ pos (length xs)

pub last-ne : (x y : ℕ) (ys : List ℕ) → mem x (y ∷ ys) ≡ false → x ≢ last_of y ys
last-ne x y [] m = ground arith
last-ne x y (z ∷ zs) m = last-ne x z zs (ground arith)

Distinct-snoc : (xs : List ℕ) (n : ℕ) → Distinct xs → mem n xs ≡ false → Distinct (xs ++ n ∷ [])
Distinct-snoc [] n d m = (refl, tt)
Distinct-snoc (x ∷ xs) n d m =
    (ground (arith, mem-append x xs (n ∷ [])), Distinct-snoc xs n d.1 (ground arith))

mem-last : (x : ℕ) (xs : List ℕ) → mem (last_of x xs) (x ∷ xs) ≡ true
mem-last x [] = ground arith
mem-last x (y ∷ ys) = ground (arith, mem-last y ys)

last_of-snoc : (x : ℕ) (xs : List ℕ) (n : ℕ) → last_of x (xs ++ n ∷ []) ≡ n
last_of-snoc x [] n = refl
last_of-snoc x (y ∷ ys) n = last_of-snoc y ys n

module _ {next next' : ℕ → ℕ} where
  -- The last node of a chain is led to a new one.
  Chain-snoc :
      (p : ℕ) (x : ℕ) (xs : List ℕ) (n : ℕ)
      → Chain next p (x ∷ xs)
      → Distinct (x ∷ xs)
      → mem n (x ∷ xs) ≡ false
      → n ≢ 0
      → next' n ≡ 0
      → next' (last_of x xs) ≡ n
      → ((y : ℕ) → y ≢ last_of x xs → y ≢ n → next' y ≡ next y)
      → Chain next' p (x ∷ xs ++ n ∷ [])
  Chain-snoc p x [] n (e, ne, c) d new nn ends leads same = (e, ne, (leads, nn, ends))
  Chain-snoc p x (y ∷ ys) n (e, ne, c) d new nn ends leads same =
      let far = last-ne x y ys d.0 in
      let here : next' x ≡ next x = same x far (ground arith) in
      (e, ne, rw here (Chain-snoc (next x) y ys n c d.1 (ground arith) nn ends leads same))

module _ (q n block : ℕ) (dsize : ℤ) (xs : List ℕ) (h : Heap) (is : IsQueue h q xs)
    (new : mem n xs ≡ false) (real : n ≢ 0) where
  -- On a queue of the nodes `xs`, `queue_add_head` with a fresh node `n` gives the queue of `n ∷ xs`.
  pub queue_add_head-IsQueue : IsQueue (queue_add_head q n block dsize h) q (n ∷ xs)
  unfolding queue_add_head
  queue_add_head-IsQueue = added xs h is new
    where
      added :
          (xs : List ℕ) (h : Heap)
          → IsQueue h q xs
          → mem n xs ≡ false
          → IsQueue (queue_add_head q n block dsize h) q (n ∷ xs)
      added [] h is new = record {
        chain = ground arith;
        last = ground arith;
        distinct = (refl, tt);
        counted = ground arith;
      }
      added (x ∷ xs) h is new =
          let some_node : (h.head q == 0) ≡ false = ground arith in
          rw some_node (record {
            chain = (
              ground arith,
              real,
              Chain-start _ (x ∷ xs) (ground arith) (
                  Chain-frame _ _ (h.head q) (x ∷ xs)
                    (λ y m. ground (arith, ne_of_mem n y (x ∷ xs))) is.chain),
            );
            last = is.last;
            distinct = (new, is.distinct);
            counted = ground arith;
          })

-- On a queue of the nodes `xs`, `queue_add_tail` with a fresh node `n` gives the queue of `xs` and
-- then `n`, as the head, the tail, the count and the `next` pointers tell it.
pub queue_add_tail-IsQueue :
    (q n block : ℕ) (dsize : ℤ) (xs : List ℕ) (h : Heap)
    → IsQueue h q xs
    → mem n xs ≡ false
    → n ≢ 0
    → IsQueue (queue_add_tail q n block dsize h) q (xs ++ n ∷ [])
unfolding queue_add_tail
queue_add_tail-IsQueue q n block dsize [] h is new real = record {
  chain = ground arith;
  last = ground arith;
  distinct = (refl, tt);
  counted = ground arith;
}
queue_add_tail-IsQueue q n block dsize (x ∷ xs) h is new real =
    let some_node : (h.head q == 0) ≡ false = ground arith in
    let last : h.tail q ≡ last_of x xs = is.last in
    rw some_node (record {
      chain =
          Chain-snoc (h.head q) x xs n is.chain is.distinct new real
            (ground (arith, mem-last x xs, ne_of_mem n (last_of x xs) (x ∷ xs))) (ground arith)
            (λ y a b. ground arith);
      last = ground (arith, last_of-snoc x xs n);
      distinct = Distinct-snoc (x ∷ xs) n is.distinct new;
      counted = ground (arith, length-append xs (n ∷ []));
    })

-- The block and size of node `n` are handed out, the node is free, and `xs` are left.
abbrev pub TakenFrom : Heap → ℕ → ℕ → List ℕ → Taken × Heap → Type 0
TakenFrom h q n xs (t, g) =
    (t.block ≡ h.block n) × (t.dsize ≡ some (h.dsize n)) × (g.allocated n ≡ false) × IsQueue g q xs

-- `queue_remove_head` on a queue that begins with the node `n` returns its block and size, frees it,
-- and leaves the queue of the other nodes.
pub queue_remove_head-TakenFrom :
    (q n : ℕ) (xs : List ℕ) (h : Heap)
    → IsQueue h q (n ∷ xs)
    → TakenFrom h q n xs (queue_remove_head q h)
unfolding queue_remove_head
queue_remove_head-TakenFrom q n [] h is =
    let some_node : (h.head q == 0) ≡ false = ground arith in
    let one : (h.tail q == h.head q) ≡ true = ground arith in
    rw (some_node, one)
      (
        ground arith,
        ground arith,
        ground arith,
        record { chain = ground arith; last = ground arith; distinct = tt; counted = ground arith },
      )
queue_remove_head-TakenFrom q n (y ∷ ys) h is =
    let some_node : (h.head q == 0) ≡ false = ground arith in
    let far = last-ne n y ys is.distinct.0 in
    let more : (h.tail q == h.head q) ≡ false = ground arith in
    rw (some_node, more)
      (
        ground arith,
        ground arith,
        ground arith,
        record {
          chain = Chain-start _ (y ∷ ys) (ground arith) is.chain.2;
          last = is.last;
          distinct = is.distinct.1;
          counted = ground arith;
        },
      )

-- On an empty queue it returns NULL, stores no size and writes nothing.
pub queue_remove_head-empty :
    (q : ℕ) (h : Heap)
    → IsQueue h q []
    → queue_remove_head q h ≡ (record { block = 0; dsize = none }, h)
unfolding queue_remove_head
queue_remove_head-empty q h is = ground arith

pub queue_new-IsQueue : (q : ℕ) (limit : ℤ) (h : Heap) → IsQueue (queue_new q limit h) q []
unfolding queue_new
queue_new-IsQueue q limit h = record {
  chain = ground arith;
  last = ground arith;
  distinct = tt;
  counted = ground arith;
}
