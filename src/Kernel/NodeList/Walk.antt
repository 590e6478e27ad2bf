-- ===== src/Kernel/NodeList/Walk.antt =====
-- `list_remove` and `list_detach` of blt/kernel/list.c: the walk to the first node with the item.
use mathlib.Core.List.{append_assoc}
use os_open_blt.Base.{
  ℕ, zero, suc, ◌+◌, ◌^◌, ◌<◌, ◌≡◌, refl, Bool, true, false, Option, some, List, [], ◌∷◌, ◌++◌,
  arith, length, ◌==◌, ◌||◌, if◌then◌else◌, Bool-cases, inl, inr,
}
use os_open_blt.Base.Int.{ℤ, pos, negsuc}
use os_open_blt.Kernel.NodeList.{
  Heap, detach_from, list_remove, list_detach, count_down, unlink_back, set_allocated,
}
use os_open_blt.Kernel.NodeList.Links.{IsList, first_of, next-first_of}
use os_open_blt.Kernel.NodeList.Removal.{IsList-Inside, IsList-free, unlinked_back}

-- Whether a node of the list holds the item, and the list less the first such node.
pub holds : (ℕ → ℕ) → ℕ → List ℕ → Bool
holds content item [] = false
holds content item (x ∷ xs) = (content x == item) || holds content item xs

unfoldable pub erase_first : (ℕ → ℕ) → ℕ → List ℕ → List ℕ
erase_first content item [] = []
erase_first content item (x ∷ xs) =
    if content x == item then xs else x ∷ erase_first content item xs

-- `ERR_NONE` and the list without the first node that holds the item, or -1 and nothing written.
pub record Walked (h : Heap) (l item : ℕ) (us vs : List ℕ) (r : Option (ℤ × Heap)) : Type 0 where
  pub status : ℤ
  pub heap : Heap
  pub returns : r ≡ some (status, heap)
  pub found : status ≡ (if holds h.content item vs then pos 0 else negsuc 0)
  pub left : IsList heap l (us ++ erase_first h.content item vs)
  pub kept : holds h.content item vs ≡ false → heap ≡ h

module _ (free : Bool) (h : Heap) (l item : ℕ) where
  taken_out :
      (us : List ℕ) (n : ℕ) (vs : List ℕ)
      → IsList h l (us ++ n ∷ vs)
      → length (us ++ n ∷ vs) < 2 ^ 32
      → (b : Bool)
      → IsList
          (count_down l (if b then set_allocated n false (unlink_back n h) else unlink_back n h))
          l
          (us ++ vs)
  taken_out us n vs is small true =
      IsList-free l n (us ++ vs) (unlink_back n h) (unlinked_back h l us n vs is small)
  taken_out us n vs is small false = unlinked_back h l us n vs is small

  detach_from-Walked :
      (fuel : ℕ) (us vs : List ℕ)
      → IsList h l (us ++ vs)
      → length (us ++ vs) < 2 ^ 32
      → length vs < fuel
      → Walked h l item us vs (detach_from free fuel l item (first_of vs l) h)
  unfolding detach_from holds erase_first
  detach_from-Walked zero us vs is small enough = absurd (omega arith)
  detach_from-Walked (suc fuel) us [] is small enough = record {
    status = negsuc 0;
    heap = h;
    returns = ground arith;
    found = refl;
    left = is;
    kept = λ _. refl;
  }
  detach_from-Walked (suc fuel) us (n ∷ vs) is small enough =
      let i = IsList-Inside h l us n vs is in
      elim (Bool-cases (h.content n == item)) [
        | inl hit ↦ record {
          status = pos 0;
          heap =
              count_down l
                (if free then set_allocated n false (unlink_back n h) else unlink_back n h);
          returns = rw (i.not_head, hit) refl;
          found = rw hit refl;
          left = rw hit (taken_out us n vs is small free);
          kept = λ e. ground arith;
        }
        | inr miss ↦
            let regroup = append_assoc us (n ∷ []) vs in
            let rest =
              detach_from-Walked fuel (us ++ n ∷ []) vs (rw regroup is) (rw regroup small)
                (omega arith) in
            record {
              status = rest.status;
              heap = rest.heap;
              returns = rw (i.not_head, miss, i.after) rest.returns;
              found = rw miss rest.found;
              left = rw miss (rw append_assoc at rest.left);
              kept = λ e. rest.kept (ground arith);
            }
      ]

  walk :
      (xs : List ℕ)
      → IsList h l xs
      → length xs < 2 ^ 32
      → Walked h l item [] xs (detach_from free (h.count l + 1) l item (h.next l) h)
  walk xs is small =
      rw (next-first_of h.next h.prev l xs l is.links)
        (detach_from-Walked (h.count l + 1) [] xs is small (omega (arith, is.counted)))

module _ (h : Heap) (l item : ℕ) (xs : List ℕ) (is : IsList h l xs)
    (small : length xs < 2 ^ 32) where
  -- `list_remove` ends, says by its result whether the item was in the list (0) or not (-1), leaves
  -- the list without the first node that held it, and writes nothing when there is none.
  pub list_remove-Walked : Walked h l item [] xs (list_remove l item h)
  unfolding list_remove
  list_remove-Walked = walk true h l item xs is small

  -- `list_detach` does the same, and gives no node back to the pool.
  pub list_detach-Walked : Walked h l item [] xs (list_detach l item h)
  unfolding list_detach
  list_detach-Walked = walk false h l item xs is small
