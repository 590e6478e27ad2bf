-- ===== src/Kernel/NodeList/Removal.antt =====
-- Detaching and removing at the ends of a list of blt/kernel/list.c.
use mathlib.Core.List.{append-nil}
use os_open_blt.Base.{
  ℕ, ◌+◌, ◌^◌, ◌<◌, ◌≡◌, ◌∙◌, ◌≢◌, refl, Bool, false, List, [], ◌∷◌, ◌++◌, arith, length, mem, ◌==◌,
}
use os_open_blt.Kernel.NodeList.{
  Heap, list_init, unlink, list_peek_head, list_peek_tail, list_detach_head, list_detach_tail,
  list_remove_head, list_remove_tail, count_down, set_allocated, unlink_back,
}
use os_open_blt.Kernel.NodeList.Links.{
  IsList, last_of, first_of, next-first_of, prev-last_of, Links-around, mem-insert, Distinct-drop,
  length-insert,
}
use os_open_blt.Kernel.NodeList.Ends.{
  IsList-drop, unlink-Dropped, unlink_back-Dropped, ne_first_of, ne_last_of,
}

-- What the list and the node look like round the node `n` of `us ++ n ∷ vs`.
pub record Inside (h : Heap) (l : ℕ) (us : List ℕ) (n : ℕ) (vs : List ℕ) : Type 0 where
  pub not_head : (n == l) ≡ false
  pub before : h.prev n ≡ last_of l us
  pub after : h.next n ≡ first_of vs l
  pub before_ne : last_of l us ≢ n
  pub after_ne : first_of vs l ≢ n

mem-left : (a : ℕ) (us vs : List ℕ) → mem a (us ++ vs) ≡ false → mem a us ≡ false
mem-left a [] vs m = refl
mem-left a (u ∷ us) vs m = ground (arith, mem-left a us vs)

mem-right : (a : ℕ) (us vs : List ℕ) → mem a (us ++ vs) ≡ false → mem a vs ≡ false
mem-right a [] vs m = m
mem-right a (u ∷ us) vs m = ground (arith, mem-right a us vs)

pub IsList-Inside :
    (h : Heap) (l : ℕ) (us : List ℕ) (n : ℕ) (vs : List ℕ)
    → IsList h l (us ++ n ∷ vs)
    → Inside h l us n vs
IsList-Inside h l us n vs is =
    let m = mem-insert l us n vs in
    let apart = is.apart in
    let d = Distinct-drop us n vs is.distinct in
    let ne : n ≢ l = ground arith in
    let around = Links-around h.next h.prev l us n vs l is.links in
    record {
      not_head = ground arith;
      before = around.1;
      after = around.0;
      before_ne = ne_last_of n l us ne (mem-left n us vs d.0);
      after_ne = ne_first_of n l vs ne (mem-right n us vs d.0);
    }

pub count_down-count :
    (l : ℕ) (h : Heap)
    → 0 < h.count l
    → h.count l < 2 ^ 32
    → (count_down l h).count l + 1 ≡ h.count l
unfolding count_down
count_down-count l h some_node small = ground arith

module _ (h : Heap) (l : ℕ) (us : List ℕ) (n : ℕ) (vs : List ℕ) (is : IsList h l (us ++ n ∷ vs))
    (small : length (us ++ n ∷ vs) < 2 ^ 32) where
  pub count_pos : 0 < h.count l
  count_pos = omega (arith, is.counted, length-insert us n vs)

  pub unlinked : IsList (count_down l (unlink n h)) l (us ++ vs)
  unfolding count_down unlink
  unlinked =
      let i = IsList-Inside h l us n vs is in
      IsList-drop h _ l us n vs is
        (unlink-Dropped n (last_of l us) (first_of vs l) h i.before_ne i.after_ne i.before i.after)
        (count_down-count l h count_pos (rw is.counted small))

  pub unlinked_back : IsList (count_down l (unlink_back n h)) l (us ++ vs)
  unfolding count_down unlink_back
  unlinked_back =
      let i = IsList-Inside h l us n vs is in
      IsList-drop h _ l us n vs is
        (unlink_back-Dropped n (last_of l us) (first_of vs l) h i.before_ne i.after_ne i.before
          i.after)
        (count_down-count l h count_pos (rw is.counted small))

-- The result of a removal: the item of node `n`, and the nodes `xs` left; `live` says what has become of the node.
abbrev pub Removed : Heap → ℕ → ℕ → List ℕ → Bool → ℕ × Heap → Type 0
Removed h l n xs live (item, g) = (item ≡ h.content n) × IsList g l xs × (g.allocated n ≡ live)

last_of-snoc : (p : ℕ) (xs : List ℕ) (n : ℕ) → last_of p (xs ++ n ∷ []) ≡ n
last_of-snoc p [] n = refl
last_of-snoc p (x ∷ xs) n = last_of-snoc x xs n

-- To give a node back to the pool moves no pointer.
pub IsList-free :
    (l n : ℕ) (xs : List ℕ) (h : Heap)
    → IsList (count_down l h) l xs
    → IsList (count_down l (set_allocated n false h)) l xs
unfolding count_down set_allocated
IsList-free l n xs h is = record {
  links = is.links;
  apart = is.apart;
  distinct = is.distinct;
  counted = is.counted;
}

module _ (h : Heap) (l n : ℕ) (xs : List ℕ) where
  module _ (is : IsList h l (n ∷ xs)) (small : length (n ∷ xs) < 2 ^ 32) where
    -- `list_detach_head` on a list that begins with the node `n` returns its item and leaves the
    -- list of the other nodes; the node stays as allocated as it was.
    pub list_detach_head-Removed : Removed h l n xs (h.allocated n) (list_detach_head l h)
    unfolding list_detach_head
    list_detach_head-Removed =
        let i = IsList-Inside h l [] n xs is in
        let e = next-first_of h.next h.prev l (n ∷ xs) l is.links in
        rw (e, i.not_head) (refl, unlinked h l [] n xs is small, refl)

    -- `list_remove_head` does the same, and gives the node back.
    pub list_remove_head-Removed : Removed h l n xs false (list_remove_head l h)
    unfolding list_remove_head
    list_remove_head-Removed =
        let i = IsList-Inside h l [] n xs is in
        let e = next-first_of h.next h.prev l (n ∷ xs) l is.links in
        let g = unlinked h l [] n xs is small in
        rw (e, i.not_head) (refl, IsList-free l n xs (unlink n h) g, ground arith)

  module _ (is : IsList h l (xs ++ n ∷ [])) (small : length (xs ++ n ∷ []) < 2 ^ 32) where
    tail_is : h.prev l ≡ n
    tail_is = prev-last_of h.next h.prev l (xs ++ n ∷ []) l is.links ∙ last_of-snoc l xs n

    -- `list_detach_tail` takes the last node.
    pub list_detach_tail-Removed : Removed h l n xs (h.allocated n) (list_detach_tail l h)
    unfolding list_detach_tail
    list_detach_tail-Removed =
        let i = IsList-Inside h l xs n [] is in
        let g : IsList (count_down l (unlink n h)) l xs =
          rw append-nil at (unlinked h l xs n [] is small) in
        rw (tail_is, i.not_head) (refl, g, refl)

    -- `list_remove_tail` on a list that ends with the node `n` returns its item, leaves the list
    -- of the other nodes, and gives the node back to the pool.
    pub list_remove_tail-Removed : Removed h l n xs false (list_remove_tail l h)
    unfolding list_remove_tail
    list_remove_tail-Removed =
        let i = IsList-Inside h l xs n [] is in
        let g : IsList (count_down l (unlink n h)) l xs =
          rw append-nil at (unlinked h l xs n [] is small) in
        rw (tail_is, i.not_head) (refl, IsList-free l n xs (unlink n h) g, ground arith)

-- The empty list: nothing is taken, and nothing is written.
abbrev pub Nothing : ℕ → Heap → Type 0
Nothing l h =
    (list_detach_head l h ≡ (0, h))
    × (list_detach_tail l h ≡ (0, h))
    × (list_remove_head l h ≡ (0, h))
    × (list_remove_tail l h ≡ (0, h))
    × (list_peek_head l h ≡ 0)
    × (list_peek_tail l h ≡ 0)

pub empty-Nothing : (l : ℕ) (h : Heap) → IsList h l [] → Nothing l h
unfolding list_detach_head list_detach_tail list_remove_head list_remove_tail list_peek_head
    list_peek_tail
empty-Nothing l h is =
    let f = is.links.0 in
    let b = is.links.1 in
    (ground arith, ground arith, ground arith, ground arith, ground arith, ground arith)

pub list_init-IsList : (l : ℕ) (h : Heap) → IsList (list_init l h) l []
unfolding list_init
list_init-IsList l h = record {
  links = (ground arith, ground arith);
  apart = refl;
  distinct = tt;
  counted = ground arith;
}
