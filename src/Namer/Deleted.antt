-- ===== src/Namer/Deleted.antt =====
-- Nodes that blt/srv/namer/namer.c deletes.
use os_open_blt.Base.{
  ℕ, ◌+◌, ◌-◌, ◌<◌, ◌≡◌, refl, sym, ◌∙◌, ap, true, false, none, some, List, ◌==◌, ltb,
  if◌then◌else◌, update, arith, Bool-cases, inl, inr,
}
use os_open_blt.Namer.{
  Namer, resolve, forge, destroy, unlinked, remove_entry, new_node, namer_create, namer_delete,
  root,
}
use os_open_blt.Namer.Created.{IsPlace, created, namer_create-created, created-IsCreated}

destroy-node : (t : ℕ) (s : Namer) → (destroy t s).node ≡ s.node
unfolding destroy
destroy-node t s = elim (Bool-cases (ltb t s.lookup_size)) [
  | inl there ↦ rw there refl
  | inr beyond ↦ rw beyond refl
]

destroy-resolve :
    (t u : ℕ) (s : Namer) → resolve u (destroy t s) ≡ (if u == t then none else resolve u s)
unfolding destroy resolve update
destroy-resolve t u s = ground arith

remove_entry-resolve : (dir n u : ℕ) (s : Namer) → resolve u (remove_entry dir n s) ≡ resolve u s
unfolding remove_entry resolve
remove_entry-resolve dir n u s = refl

-- The state after the new node is deleted.
deleted : ℕ → List ℕ → ℕ → Namer → Namer
deleted dir name type s =
    destroy (forge s.next_node s).0 (remove_entry dir s.next_node (created dir name type s))

deleted-node :
    (dir : ℕ) (name : List ℕ) (type : ℕ) (s : Namer) (m : ℕ)
    → dir < s.next_node
    → m < s.next_node
    → (deleted dir name type s).node m ≡ s.node m
unfolding deleted remove_entry created update unlinked
deleted-node dir name type s m bound small =
    let same : (dir == dir) ≡ true = ground arith in
    let new : (s.next_node == s.next_node) ≡ true = ground arith in
    let old : (m == s.next_node) ≡ false = ground (arith, small) in
    ap (λ f. f m)
      (destroy-node (forge s.next_node s).0
        (remove_entry dir s.next_node (created dir name type s)))
    ∙ elim (Bool-cases (m == dir)) [
      | inl here ↦
          let equal : dir ≡ m = ground (arith, here) in
          rw (here, same, new)
            (ap (λ size. record (s.node dir) { size = size })
                (let back : (s.node dir).size + 1 - 1 ≡ (s.node dir).size = omega arith in back)
              ∙ ap s.node equal)
      | inr elsewhere ↦ rw (elsewhere, old) refl
    ]

module _ (type_directory : ℕ) where
  namer_delete-created :
      (token dir : ℕ) (name : List ℕ) (type : ℕ) (s : Namer)
      → IsPlace type_directory token dir name s
      → namer_delete type_directory (forge s.next_node s).0 (created dir name type s)
        ≡ (true, deleted dir name type s)
  unfolding namer_delete created update new_node deleted
  namer_delete-created token dir name type s place =
      let made = created-IsCreated type_directory token dir name type s place in
      let other : (s.next_node == dir) ≡ false = let b = place.bound in ground (arith, b) in
      let new : (s.next_node == s.next_node) ≡ true = ground arith in
      let not_root : (s.next_node == root) ≡ false = let b = place.bound in ground (arith, b) in
      rw (namer_delete, made.resolves, not_root, other, new)
        (elim (Bool-cases (type == type_directory)) [
          | inl directory ↦ rw directory refl
          | inr file ↦ rw file refl
        ])

  deleted-resolve :
      (token dir : ℕ) (name : List ℕ) (type : ℕ) (s : Namer)
      → IsPlace type_directory token dir name s
      → (u : ℕ) → resolve u (deleted dir name type s) ≡ resolve u s
  unfolding deleted
  deleted-resolve token dir name type s place u =
      let made = created-IsCreated type_directory token dir name type s place in
      let k = (forge s.next_node s).0 in
      destroy-resolve k u (remove_entry dir s.next_node (created dir name type s))
      ∙ elim (Bool-cases (u == k)) [
        | inl here ↦
            let equal : k ≡ u = ground (arith, here) in
            rw here (sym made.was_free ∙ ap (λ t. resolve t s) equal)
        | inr other ↦
            rw other (
              remove_entry-resolve dir s.next_node u (created dir name type s)
              ∙ made.others u other)
      ]

  -- Where a token stands for a directory in which a name is free, `namer_delete` of the token that `namer_create` gives
  -- succeeds, whatever the type is, and then every token stands for what it stood for before both, and every node
  -- that was there is as it was.
  pub namer_delete-namer_create :
      (token dir : ℕ) (name : List ℕ) (type : ℕ) (s : Namer)
      → IsPlace type_directory token dir name s
      → (k : ℕ) × (s' : Namer) × (s'' : Namer) × (namer_create type_directory token name type s
          ≡ (some k, s'))
        × (namer_delete type_directory k s' ≡ (true, s''))
        × ((u : ℕ) → resolve u s'' ≡ resolve u s)
        × ((m : ℕ) → m < s.next_node → s''.node m ≡ s.node m)
  namer_delete-namer_create token dir name type s place = (
    (forge s.next_node s).0,
    created dir name type s,
    deleted dir name type s,
    namer_create-created type_directory token dir name type s place,
    namer_delete-created token dir name type s place,
    deleted-resolve token dir name type s place,
    λ m small. deleted-node dir name type s m place.bound small,
  )
