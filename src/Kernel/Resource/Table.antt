-- ===== src/Kernel/Resource/Table.antt =====
-- The resource table of blt/kernel/resource.c: its free list, and which ids find which resource.
use os_open_blt.Base.{
  ℕ, ◌<◌, ◌≡◌, ◌≢◌, refl, true, false, List, [], ◌∷◌, arith, ◌==◌, mem, Distinct, Chain,
  Chain-start, Chain-frame, ne_of_mem, Returns, none, Bool-cases, inl, inr, sym, ◌∙◌,
}
use os_open_blt.Kernel.State.{RsrcType, rsrc_none, type_code, Kernel}
use os_open_blt.Kernel.Resource.{rsrc_find, rsrc_bind, give_back}

-- The free list runs through the distinct entries `free`, which hold the null resource; every other
-- entry but the first holds a resource that has a type and knows its id.
pub record TableOk (k : Kernel) (free : List ℕ) : Type 0 where
  pub chain : Chain k.rmap_next k.rfree free
  pub distinct : Distinct free
  pub below : (i : ℕ) → mem i free ≡ true → i < k.rmax
  pub vacant : (i : ℕ) → mem i free ≡ true → k.rmap_resource i ≡ k.null_resource
  pub zeroth : k.rmap_resource 0 ≡ k.null_resource
  pub null_type : (k.rsrc k.null_resource).type ≡ rsrc_none
  pub known :
      (i : ℕ)
      → i < k.rmax
      → i ≢ 0
      → mem i free ≡ false
      → ((k.rsrc (k.rmap_resource i)).id ≡ i) × ((k.rsrc (k.rmap_resource i)).type ≢ rsrc_none)

-- The address is that of no resource in the table, and not that of the null resource.
pub record Unbound (k : Kernel) (r : ℕ) : Type 0 where
  pub not_null : r ≢ k.null_resource
  pub absent : (i : ℕ) → i < k.rmax → k.rmap_resource i ≢ r

-- What `rsrc_bind` promises: the first free id, under which the resource and nothing else is found.
pub record Bound (k : Kernel) (r : ℕ) (type : RsrcType) (i : ℕ) (free : List ℕ) (k' : Kernel)
    : Type 0 where
  pub table : TableOk k' free
  pub id : (k'.rsrc r).id ≡ i
  pub found : rsrc_find (type_code type) i k' ≡ r
  pub other_type : (t : ℕ) → t ≢ type_code type → rsrc_find t i k' ≡ 0
  pub other_id : (t j : ℕ) → j ≢ i → rsrc_find t j k' ≡ rsrc_find t j k

module _ (k : Kernel) (r : ℕ) (type : RsrcType) (owner i : ℕ) (free : List ℕ)
    (ok : TableOk k (i ∷ free)) (real : type ≢ rsrc_none) (new : Unbound k r) where
  -- While an id is free `rsrc_bind` gives the resource the first free one: the table stays well formed
  -- with the other free ids, the resource is found under that id and its type and under no other type,
  -- and what any other id finds does not change. The resource has a type and was not in the table.
  pub rsrc_bind-Bound : Returns (Bound k r type i free) (rsrc_bind r type owner k)
  unfolding rsrc_bind rsrc_find
  rsrc_bind-Bound =
      let first = ok.chain.0 in
      let nz : (k.rfree == 0) ≡ false = ground arith in
      let null_type = ok.null_type in
      let zeroth = ok.zeroth in
      let not_null = new.not_null in
      let low : i < k.rmax = ok.below i (ground arith) in
      rw nz (record {
        table = record {
          chain = Chain-start _ free (ground arith) ok.chain.2;
          distinct = ok.distinct.1;
          below = λ j m. ok.below j (ground arith);
          vacant = λ j m. ground (arith, ok.vacant j, ne_of_mem i j free ok.distinct.0 m);
          zeroth = ground arith;
          null_type = ground arith;
          known = λ j low_j nz_j out. ground (arith, ok.known j low_j nz_j, new.absent j low_j);
        };
        id = ground arith;
        found = ground arith;
        other_type = λ t ne. ground arith;
        other_id = λ t j ne. ground (arith, new.absent j);
      })

-- With no free entry left `rsrc_bind` panics, and only then.
pub rsrc_bind-exhausted :
    (k : Kernel) (r : ℕ) (type : RsrcType) (owner : ℕ)
    → TableOk k []
    → rsrc_bind r type owner k ≡ none
unfolding rsrc_bind
rsrc_bind-exhausted k r type owner ok = let last = ok.chain in ground arith

-- The resource `r` is in the table under the id `i`.
pub record InTable (k : Kernel) (r i : ℕ) (free : List ℕ) : Type 0 where
  pub low : i < k.rmax
  pub nonzero : i ≢ 0
  pub taken : mem i free ≡ false
  pub entry : k.rmap_resource i ≡ r
  pub not_null : r ≢ k.null_resource

-- What the return of an entry promises: the id is free again and finds nothing, and no other id is touched.
pub record Freed (k : Kernel) (i : ℕ) (free : List ℕ) (k' : Kernel) : Type 0 where
  pub table : TableOk k' (i ∷ free)
  pub gone : (t : ℕ) → t ≢ 0 → rsrc_find t i k' ≡ 0
  pub other_id : (t j : ℕ) → j ≢ i → rsrc_find t j k' ≡ rsrc_find t j k

module _ (k : Kernel) (r i : ℕ) (free : List ℕ) (ok : TableOk k free)
    (at : InTable k r i free) where
  -- No other id leads to `r`.
  entry_ne : (j : ℕ) → j < k.rmax → j ≢ i → k.rmap_resource j ≢ r
  entry_ne j low ne = λ e. elim (Bool-cases (mem j free)) [
    | inl is_free ↦ at.not_null (sym e ∙ ok.vacant j is_free)
    | inr bound ↦ elim (Bool-cases (j == 0)) [
      | inl z ↦ at.not_null (ground (arith, ok.zeroth))
      | inr nz ↦ ne (ground (arith, ok.known j, ok.known i at.low at.nonzero at.taken, at.entry))
    ]
  ]

  pub give_back-Freed : Freed k i free (give_back r i k)
  unfolding give_back rsrc_find
  give_back-Freed =
      let nonzero = at.nonzero in
      let taken = at.taken in
      let entry = at.entry in
      let not_null = at.not_null in
      let null_type = ok.null_type in
      let zeroth = ok.zeroth in
      record {
        table = record {
          chain = (
            refl,
            nonzero,
            Chain-start _ free (ground arith) (
                Chain-frame _ _ k.rfree free (λ j m. ground (arith, ne_of_mem i j free taken m))
                  ok.chain),
          );
          distinct = (taken, ok.distinct);
          below = λ j m. ground (arith, at.low, ok.below j);
          vacant = λ j m. ground (arith, ok.vacant j);
          zeroth = ground arith;
          null_type = ground arith;
          known = λ j low nz out. ground (arith, ok.known j low nz, entry_ne j low);
        };
        gone = λ t ne. ground (arith, at.low);
        other_id = λ t j ne. ground (arith, entry_ne j);
      }
