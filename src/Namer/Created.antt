-- ===== src/Namer/Created.antt =====
-- Nodes that blt/srv/namer/namer.c creates.
use os_open_blt.Base.{
  same_text, same_text_refl, ℕ, zero, suc, ◌+◌, ◌-◌, ◌*◌, ◌≤◌, ◌<◌, ◌≡◌, refl, sym, ◌∙◌, ap, true,
  false, Option, none, some, List, [], ◌∷◌, ◌==◌, ltb, update, arith, Bool-cases, inl, inr,
}
use mathlib.Core.Option
use os_open_blt.Namer.{
  Namer, resolve, free_token, next_token, forge, find_name, find_entry, new_node, add_entry,
  namer_walk, namer_create,
}

free_token-none :
    (f : ℕ → Option ℕ) (n i j : ℕ)
    → free_token f n i ≡ some j
    → (f j ≡ none) × (i ≤ j) × (j < i + n)
unfolding free_token
free_token-none f zero i j is = ground (arith, is)
free_token-none f (suc n) i j is = go (f i) refl (free_token-none f n (i + 1) j)
  where
    go :
        (o : Option ℕ)
        → f i ≡ o
        → (free_token f n (i + 1) ≡ some j → (f j ≡ none) × (i + 1 ≤ j) × (j < i + 1 + n))
        → (f j ≡ none) × (i ≤ j) × (j < i + suc n)
    go none there later =
        let here : i ≡ j = ground (arith, (rw (free_token, there) at is)) in
        (ap f (sym here) ∙ there, omega (arith, here), omega (arith, here))
    go (some node) there later =
        let (free, low, high) = later (rw (free_token, there) at is) in
        (free, omega (arith, low), omega (arith, high))

-- What `forge` does to the tokens.
record IsForged (n t : ℕ) (s s' : Namer) : Type 0 where
  was_free : resolve t s ≡ none
  resolves : resolve t s' ≡ some n
  others : (u : ℕ) → (u == t) ≡ false → resolve u s' ≡ resolve u s
  same_node : s'.node ≡ s.node
  same_next : s'.next_node ≡ s.next_node

next_token-IsForged : (n : ℕ) (s : Namer) → IsForged n (next_token n s).0 s (next_token n s).1
unfolding next_token resolve update
next_token-IsForged n s = record {
  was_free = ground arith;
  resolves = ground arith;
  others = λ u other. ground (arith, other);
  same_node = refl;
  same_next = refl;
}

forge-IsForged : (n : ℕ) (s : Namer) → IsForged n (forge n s).0 s (forge n s).1
unfolding forge resolve update next_token
forge-IsForged n s = elim (Bool-cases (ltb s.lookup_size s.lookup_max)) [
  | inl room ↦ rw room (next_token-IsForged n s)
  | inr full ↦ rw full (go (free_token s.lookup_token (s.lookup_size - 1) 1) refl)
]
  where
    go :
        (o : Option ℕ)
        → free_token s.lookup_token (s.lookup_size - 1) 1 ≡ o
        → (let forged : ℕ × Namer = elim o [
          | some i ↦ (i, record s { lookup_token = update s.lookup_token i (some n) })
          | none ↦ next_token n (record s { lookup_max = s.lookup_max * 2 })
        ] in
            IsForged n forged.0 s forged.1)
    go none is =
        let same = next_token-IsForged n (record s { lookup_max = s.lookup_max * 2 }) in
        record {
          was_free = same.was_free;
          resolves = same.resolves;
          others = same.others;
          same_node = same.same_node;
          same_next = same.same_next;
        }
    go (some i) is =
        let (free, low, high) = free_token-none s.lookup_token (s.lookup_size - 1) 1 i is in
        record {
          was_free = ground (arith, free);
          resolves = ground (arith, low, high);
          others = λ u other. ground (arith, other);
          same_node = refl;
          same_next = refl;
        }

-- The state after a name was created in a directory.
unfoldable pub created : ℕ → List ℕ → ℕ → Namer → Namer
created dir name type s =
    let n = s.next_node in
    let t = (forge n s).0 in
    let node' = update s.node n (new_node dir name type t) in
    record (forge n s).1 {
      node = update node' dir (record (s.node dir) {
        size = (s.node dir).size + 1;
        entries = n ∷ (s.node dir).entries;
      });
      next_node = n + 1;
    }

module _ (type_directory : ℕ) where
  -- A directory that a token stands for, in which a name is free.
  pub record IsPlace (token dir : ℕ) (name : List ℕ) (s : Namer) : Type 0 where
    pub stands : resolve token s ≡ some dir
    pub bound : dir < s.next_node
    pub is_directory : (s.node dir).type ≡ type_directory
    pub free : find_entry type_directory dir name s ≡ none

  pub namer_create-created :
      (token dir : ℕ) (name : List ℕ) (type : ℕ) (s : Namer)
      → IsPlace token dir name s
      → namer_create type_directory token name type s
        ≡ (some (forge s.next_node s).0, created dir name type s)
  unfolding namer_create add_entry created update new_node
  namer_create-created token dir name type s place =
      let forged = forge-IsForged s.next_node s in
      let is : ((s.node dir).type == type_directory) ≡ true = ground (arith, place.is_directory) in
      let other : (dir == s.next_node) ≡ false = let b = place.bound in ground (arith, b) in
      let other' : (s.next_node == dir) ≡ false = let b = place.bound in ground (arith, b) in
      let same : (s.next_node == s.next_node) ≡ true = ground arith in
      rw
        (
          namer_create, place.stands, add_entry, is, place.free, forged.same_node, other, other',
          same,
        )
        refl

  not_dots :
      (dir : ℕ) (name : List ℕ) (s : Namer)
      → ((s.node dir).type == type_directory) ≡ true
      → find_entry type_directory dir name s ≡ none
      → (same_text name (b'.' ∷ []) ≡ false) × (same_text name (b'.' ∷ b'.' ∷ []) ≡ false)
  unfolding find_entry
  not_dots dir name s is free = elim (Bool-cases (same_text name (b'.' ∷ []))) [
    | inl dot ↦ ground (arith, (rw (find_entry, is, dot) at free))
    | inr no_dot ↦ elim (Bool-cases (same_text name (b'.' ∷ b'.' ∷ []))) [
      | inl dots ↦ ground (arith, (rw (find_entry, is, no_dot, dots) at free))
      | inr no_dots ↦ (no_dot, no_dots)
    ]
  ]

  -- A name that was created: its token is new, stands for the new node, is what the walk to the name gives, and the
  -- other tokens stand for what they stood for.
  pub record IsCreated (token : ℕ) (name : List ℕ) (k : ℕ) (s s' : Namer) : Type 0 where
    pub was_free : resolve k s ≡ none
    pub resolves : resolve k s' ≡ some s.next_node
    pub walks : namer_walk type_directory token name s' ≡ some k
    pub others : (u : ℕ) → (u == k) ≡ false → resolve u s' ≡ resolve u s

  other_token :
      (token k dir : ℕ) (s : Namer)
      → resolve token s ≡ some dir
      → resolve k s ≡ none
      → (token == k) ≡ false
  other_token token k dir s stands free = elim (Bool-cases (token == k)) [
    | inl same ↦
        let equal : token ≡ k = ground (arith, same) in
        let clash : some dir ≡ none = sym stands ∙ ap (λ t. resolve t s) equal ∙ free in
        ground (arith, clash)
    | inr other ↦ other
  ]

  created-walks :
      (token dir : ℕ) (name : List ℕ) (type : ℕ) (s : Namer)
      → IsPlace token dir name s
      → resolve token (created dir name type s) ≡ some dir
      → namer_walk type_directory token name (created dir name type s)
        ≡ some (forge s.next_node s).0
  unfolding namer_walk find_entry find_name update new_node created Option.bind
  created-walks token dir name type s place here =
      let is : ((s.node dir).type == type_directory) ≡ true = ground (arith, place.is_directory) in
      let (no_dot, no_dots) = not_dots dir name s is place.free in
      let same : (dir == dir) ≡ true = ground arith in
      let other : (s.next_node == dir) ≡ false = let b = place.bound in ground (arith, b) in
      let new : (s.next_node == s.next_node) ≡ true = ground arith in
      rw (here, same, is, no_dot, no_dots, other, new, same_text_refl name, other, new) refl

  pub created-IsCreated :
      (token dir : ℕ) (name : List ℕ) (type : ℕ) (s : Namer)
      → IsPlace token dir name s
      → IsCreated token name (forge s.next_node s).0 s (created dir name type s)
  unfolding created resolve
  created-IsCreated token dir name type s place =
      let forged = forge-IsForged s.next_node s in
      let k = (forge s.next_node s).0 in
      let here : resolve token (created dir name type s) ≡ some dir =
        forged.others token (other_token token k dir s place.stands forged.was_free)
        ∙ place.stands in
      record {
        was_free = forged.was_free;
        resolves = forged.resolves;
        walks = created-walks token dir name type s place here;
        others = forged.others;
      }

  -- Where a token stands for a directory in which a name is free, `namer_create` gives a token that stood for nothing
  -- and stands for the new node, a walk to the name gives it, and the other tokens stand for what they stood for.
  pub namer_create-IsCreated :
      (token dir : ℕ) (name : List ℕ) (type : ℕ) (s : Namer)
      → IsPlace token dir name s
      → (k : ℕ) × (s' : Namer) × (namer_create type_directory token name type s ≡ (some k, s'))
        × IsCreated token name k s s'
  namer_create-IsCreated token dir name type s place = (
    (forge s.next_node s).0,
    created dir name type s,
    namer_create-created token dir name type s place,
    created-IsCreated token dir name type s place,
  )
