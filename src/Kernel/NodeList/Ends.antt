-- ===== src/Kernel/NodeList/Ends.antt =====
-- Attaching and detaching at the ends of a list of blt/kernel/list.c.
use mathlib.Core.List.{append-nil}
use os_open_blt.Base.{
  ℕ, ◌+◌, ◌^◌, ◌<◌, ◌≡◌, ◌≢◌, true, false, List, [], ◌∷◌, ◌++◌, arith, length, mem,
}
use os_open_blt.Kernel.NodeList.{
  Heap, list_attach_head, list_attach_tail, list_add_head, list_add_tail, unlink, unlink_back,
}
use os_open_blt.Kernel.NodeList.Links.{
  IsList, last_of, first_of, Inserted, Dropped, Links-insert, Links-drop, next-first_of,
  prev-last_of, mem-insert, Distinct-insert, Distinct-drop, length-insert,
}

pub IsList-insert :
    (h g : Heap) (l : ℕ) (us : List ℕ) (n : ℕ) (vs : List ℕ)
    → IsList h l (us ++ vs)
    → Inserted h.next h.prev g.next g.prev (last_of l us) n (first_of vs l)
    → mem n (us ++ vs) ≡ false
    → n ≢ l
    → g.count l ≡ h.count l + 1
    → IsList g l (us ++ n ∷ vs)
IsList-insert h g l us n vs is ins new ne count = record {
  links = Links-insert l us vs l n ins new ne ne is.apart is.apart is.distinct is.links;
  apart = ground (arith, mem-insert l us n vs, is.apart);
  distinct = Distinct-insert us n vs is.distinct new;
  counted = omega (arith, is.counted, length-insert us n vs);
}

pub IsList-drop :
    (h g : Heap) (l : ℕ) (us : List ℕ) (n : ℕ) (vs : List ℕ)
    → IsList h l (us ++ n ∷ vs)
    → Dropped h.next h.prev g.next g.prev (last_of l us) n (first_of vs l)
    → g.count l + 1 ≡ h.count l
    → IsList g l (us ++ vs)
IsList-drop h g l us n vs is drop count =
    let m = mem-insert l us n vs in
    let apart = is.apart in
    let d = Distinct-drop us n vs is.distinct in
    let out : mem l (us ++ vs) ≡ false = ground arith in
    let ne : n ≢ l = ground arith in
    record {
      links = Links-drop l us n vs l drop d.0 ne ne out out d.1 is.links;
      apart = out;
      distinct = d.1;
      counted = omega (arith, is.counted, length-insert us n vs);
    }

module _ (l n a : ℕ) (h : Heap) (ne : l ≢ n) (na : a ≢ n) where
  attach_tail-Inserted :
      h.prev l ≡ a
      → Inserted h.next h.prev (list_attach_tail l n h).next (list_attach_tail l n h).prev a n l
  unfolding list_attach_tail
  attach_tail-Inserted e = ground arith

  add_tail-Inserted :
      (item : ℕ)
      → h.prev l ≡ a
      → Inserted h.next h.prev (list_add_tail l n item h).next (list_add_tail l n item h).prev a n l
  unfolding list_add_tail
  add_tail-Inserted item e = ground arith

module _ (l n b : ℕ) (h : Heap) (ne : l ≢ n) (nb : b ≢ n) where
  attach_head-Inserted :
      h.next l ≡ b
      → Inserted h.next h.prev (list_attach_head l n h).next (list_attach_head l n h).prev l n b
  unfolding list_attach_head
  attach_head-Inserted e = ground arith

  add_head-Inserted :
      (item : ℕ)
      → h.next l ≡ b
      → Inserted h.next h.prev (list_add_head l n item h).next (list_add_head l n item h).prev l n b
  unfolding list_add_head
  add_head-Inserted item e = ground arith

module _ (n a b : ℕ) (h : Heap) (na : a ≢ n) (nb : b ≢ n) (ea : h.prev n ≡ a)
    (eb : h.next n ≡ b) where
  pub unlink-Dropped : Dropped h.next h.prev (unlink n h).next (unlink n h).prev a n b
  unfolding unlink
  unlink-Dropped = ground arith

  pub unlink_back-Dropped :
      Dropped h.next h.prev (unlink_back n h).next (unlink_back n h).prev a n b
  unfolding unlink_back
  unlink_back-Dropped = ground arith

pub ne_last_of : (n l : ℕ) (xs : List ℕ) → n ≢ l → mem n xs ≡ false → last_of l xs ≢ n
ne_last_of n l [] ne m = ground arith
ne_last_of n l (x ∷ xs) ne m = ne_last_of n x xs (ground arith) (ground arith)

pub ne_first_of : (n l : ℕ) (xs : List ℕ) → n ≢ l → mem n xs ≡ false → first_of xs l ≢ n
ne_first_of n l [] ne m = ground arith
ne_first_of n l (x ∷ xs) ne m = ground arith

-- The new node is allocated and holds the item, in the list of the nodes `ys`.
abbrev pub AddedTo : ℕ → ℕ → ℕ → List ℕ → Heap → Type 0
AddedTo l n item ys g = IsList g l ys × (g.content n ≡ item) × (g.allocated n ≡ true)

module _ (l n : ℕ) (xs : List ℕ) (h : Heap) (is : IsList h l xs) (new : mem n xs ≡ false)
    (ne : n ≢ l) (room : length xs + 1 < 2 ^ 32) where
  padded : IsList h l (xs ++ [])
  padded = rw append-nil is

  -- `list_attach_tail` of a node that is not in the list leaves the list of `xs` and then that node, with
  -- the pointers of both directions and the count as they should be. The count stays below 2 ^ 32.
  pub list_attach_tail-IsList : IsList (list_attach_tail l n h) l (xs ++ n ∷ [])
  unfolding list_attach_tail
  list_attach_tail-IsList =
      IsList-insert h _ l xs n [] padded
        (attach_tail-Inserted l n (last_of l xs) h (ground arith) (ne_last_of n l xs ne new)
          (prev-last_of _ _ l xs l is.links))
        (rw append-nil new) ne (ground (arith, is.counted))

  -- The node attached stands first.
  pub list_attach_head-IsList : IsList (list_attach_head l n h) l (n ∷ xs)
  unfolding list_attach_head
  list_attach_head-IsList =
      IsList-insert h _ l [] n xs is
        (attach_head-Inserted l n (first_of xs l) h (ground arith) (ne_first_of n l xs ne new)
          (next-first_of _ _ l xs l is.links))
        new ne (ground (arith, is.counted))

  -- `list_add_tail` with a fresh node puts it last, allocated, with the item.
  pub list_add_tail-Added : (item : ℕ) → AddedTo l n item (xs ++ n ∷ []) (list_add_tail l n item h)
  unfolding list_add_tail
  list_add_tail-Added item = (
    IsList-insert h _ l xs n [] padded
        (add_tail-Inserted l n (last_of l xs) h (ground arith) (ne_last_of n l xs ne new) item
          (prev-last_of _ _ l xs l is.links))
        (rw append-nil new) ne (ground (arith, is.counted)),
    ground arith,
    ground arith,
  )

  -- `list_add_head` with a fresh node puts it first: the list is that of `n` and then `xs`, and
  -- the node is allocated and holds the item. The count stays below 2 ^ 32.
  pub list_add_head-Added : (item : ℕ) → AddedTo l n item (n ∷ xs) (list_add_head l n item h)
  unfolding list_add_head
  list_add_head-Added item = (
    IsList-insert h _ l [] n xs is
        (add_head-Inserted l n (first_of xs l) h (ground arith) (ne_first_of n l xs ne new) item
          (next-first_of _ _ l xs l is.links))
        new ne (ground (arith, is.counted)),
    ground arith,
    ground arith,
  )
