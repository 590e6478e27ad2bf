-- ===== src/Kernel/NodeList/Links.antt =====
-- What the pointers of a circular list spell out, and how one node comes in or goes.
use os_open_blt.Base.{
  ℕ, ◌≡◌, ◌≢◌, refl, true, false, ◌||◌, ◌==◌, List, [], ◌∷◌, ◌++◌, arith, length, mem, Distinct,
  ◌∙◌, ◌+◌,
}
use os_open_blt.Kernel.NodeList.{Heap}

-- From `p` the `next` pointers lead through the nodes `xs` to `e`, and the `prev` pointers back.
abbrev pub Links : (ℕ → ℕ) → (ℕ → ℕ) → ℕ → List ℕ → ℕ → Type 0
Links next prev p [] e = (next p ≡ e) × (prev e ≡ p)
Links next prev p (x ∷ xs) e = (next p ≡ x) × (prev x ≡ p) × Links next prev x xs e

-- `l` heads the list of the nodes `xs`, each of them once.
pub record IsList (h : Heap) (l : ℕ) (xs : List ℕ) : Type 0 where
  pub links : Links h.next h.prev l xs l
  pub apart : mem l xs ≡ false
  pub distinct : Distinct xs
  pub counted : h.count l ≡ length xs

-- The last of `p ∷ us`, and the first of `vs` or `e`.
abbrev pub last_of : ℕ → List ℕ → ℕ
last_of p [] = p
last_of p (u ∷ us) = last_of u us

abbrev pub first_of : List ℕ → ℕ → ℕ
first_of [] e = e
first_of (v ∷ vs) e = v

pub ne_of_mem : (a x : ℕ) (xs : List ℕ) → mem a xs ≡ false → mem x xs ≡ true → a ≢ x
ne_of_mem a x [] p q = λ _. cc
ne_of_mem a x (y ∷ ys) p q = ground (arith, ne_of_mem a x ys)

module _ {next prev next' prev' : ℕ → ℕ} where
  -- Links read `next` at the first node and inside, `prev` inside and at the end.
  pub Links-frame :
      (p : ℕ) (xs : List ℕ) (e : ℕ)
      → next' p ≡ next p
      → ((x : ℕ) → mem x xs ≡ true → next' x ≡ next x)
      → ((x : ℕ) → mem x xs ≡ true → prev' x ≡ prev x)
      → prev' e ≡ prev e
      → Links next prev p xs e
      → Links next' prev' p xs e
  Links-frame p [] e n ns ps pe links = ground arith
  Links-frame p (x ∷ xs) e n ns ps pe (f, b, links) =
      let nx : next' x ≡ next x = ns x (ground arith) in
      let px : prev' x ≡ prev x = ps x (ground arith) in
      (
        ground arith,
        ground arith,
        Links-frame x xs e nx (λ y m. ns y (ground arith)) (λ y m. ps y (ground arith)) pe links,
      )

-- `n` stands between `a` and `b`, and no other pointer has moved.
pub record Inserted (next prev next' prev' : ℕ → ℕ) (a n b : ℕ) : Type 0 where
  pub after_a : next' a ≡ n
  pub after_n : next' n ≡ b
  pub before_b : prev' b ≡ n
  pub before_n : prev' n ≡ a
  pub same_next : (x : ℕ) → x ≢ a → x ≢ n → next' x ≡ next x
  pub same_prev : (x : ℕ) → x ≢ b → x ≢ n → prev' x ≡ prev x

-- `a` and `b` are neighbours now, and no other pointer has moved but those of `n`.
pub record Dropped (next prev next' prev' : ℕ → ℕ) (a n b : ℕ) : Type 0 where
  pub after_a : next' a ≡ b
  pub before_b : prev' b ≡ a
  pub same_next : (x : ℕ) → x ≢ a → x ≢ n → next' x ≡ next x
  pub same_prev : (x : ℕ) → x ≢ b → x ≢ n → prev' x ≡ prev x

mem-last_of : (u : ℕ) (us vs : List ℕ) → mem (last_of u us) (u ∷ us ++ vs) ≡ true
mem-last_of u [] vs = ground arith
mem-last_of u (w ∷ us) vs = ground (arith, mem-last_of w us vs)

ne_last : (p u : ℕ) (us vs : List ℕ) → mem p ((u ∷ us) ++ vs) ≡ false → p ≢ last_of p (u ∷ us)
ne_last p u us vs h = ne_of_mem p (last_of u us) (u ∷ us ++ vs) h (mem-last_of u us vs)

ne_first : (u e : ℕ) (us vs : List ℕ) → mem u (us ++ vs) ≡ false → u ≢ e → u ≢ first_of vs e
ne_first u e [] [] h k = k
ne_first u e [] (v ∷ vs) h k = ground arith
ne_first u e (w ∷ us) vs h k = ne_first u e us vs (ground arith) k

module _ {next prev next' prev' : ℕ → ℕ} where
  insert_front :
      (p : ℕ) (vs : List ℕ) (e n : ℕ)
      → Inserted next prev next' prev' p n (first_of vs e)
      → mem n vs ≡ false
      → n ≢ e
      → mem p vs ≡ false
      → mem e vs ≡ false
      → Distinct vs
      → Links next prev p vs e
      → Links next' prev' n vs e
  insert_front p [] e n i nv ne pv ev d links = (i.after_n, i.before_b)
  insert_front p (v ∷ vs) e n i nv ne pv ev d (f, b, links) = (
    i.after_n,
    i.before_b,
    Links-frame v vs e (i.same_next v (ground arith) (ground arith))
        (λ x m. i.same_next x (ground (arith, ne_of_mem p x vs)) (ground (arith, ne_of_mem n x vs)))
        (λ x m. i.same_prev x (ground (arith, ne_of_mem v x vs)) (ground (arith, ne_of_mem n x vs)))
        (i.same_prev e (ground arith) (ground arith)) links,
  )

  pub Links-insert :
      (p : ℕ) (us vs : List ℕ) (e n : ℕ)
      → Inserted next prev next' prev' (last_of p us) n (first_of vs e)
      → mem n (us ++ vs) ≡ false
      → n ≢ p
      → n ≢ e
      → mem p (us ++ vs) ≡ false
      → mem e (us ++ vs) ≡ false
      → Distinct (us ++ vs)
      → Links next prev p (us ++ vs) e
      → Links next' prev' p (us ++ n ∷ vs) e
  Links-insert p [] vs e n i nv np ne pv ev d links =
      (i.after_a, i.before_n, insert_front p vs e n i nv ne pv ev d links)
  Links-insert p (u ∷ us) vs e n i nv np ne pv ev d (f, b, links) = (
    i.same_next p (ne_last p u us vs pv) (ground arith) ∙ f,
    i.same_prev u (ne_first u e us vs d.0 (ground arith)) (ground arith) ∙ b,
    Links-insert u us vs e n i (ground arith) (ground arith) ne d.0 (ground arith) d.1 links,
  )

  drop_front :
      (p n : ℕ) (vs : List ℕ) (e : ℕ)
      → Dropped next prev next' prev' p n (first_of vs e)
      → mem n vs ≡ false
      → n ≢ e
      → mem p vs ≡ false
      → mem e vs ≡ false
      → Distinct vs
      → Links next prev n vs e
      → Links next' prev' p vs e
  drop_front p n [] e i nv ne pv ev d links = (i.after_a, i.before_b)
  drop_front p n (v ∷ vs) e i nv ne pv ev d (f, b, links) = (
    i.after_a,
    i.before_b,
    Links-frame v vs e (i.same_next v (ground arith) (ground arith))
        (λ x m. i.same_next x (ground (arith, ne_of_mem p x vs)) (ground (arith, ne_of_mem n x vs)))
        (λ x m. i.same_prev x (ground (arith, ne_of_mem v x vs)) (ground (arith, ne_of_mem n x vs)))
        (i.same_prev e (ground arith) (ground arith)) links,
  )

  pub Links-drop :
      (p : ℕ) (us : List ℕ) (n : ℕ) (vs : List ℕ) (e : ℕ)
      → Dropped next prev next' prev' (last_of p us) n (first_of vs e)
      → mem n (us ++ vs) ≡ false
      → n ≢ p
      → n ≢ e
      → mem p (us ++ vs) ≡ false
      → mem e (us ++ vs) ≡ false
      → Distinct (us ++ vs)
      → Links next prev p (us ++ n ∷ vs) e
      → Links next' prev' p (us ++ vs) e
  Links-drop p [] n vs e i nv np ne pv ev d (f, b, links) =
      drop_front p n vs e i nv ne pv ev d links
  Links-drop p (u ∷ us) n vs e i nv np ne pv ev d (f, b, links) = (
    i.same_next p (ne_last p u us vs pv) (ground arith) ∙ f,
    i.same_prev u (ne_first u e us vs d.0 (ground arith)) (ground arith) ∙ b,
    Links-drop u us n vs e i (ground arith) (ground arith) ne d.0 (ground arith) d.1 links,
  )

-- The pointers at the ends, and round a node inside.
module _ (next prev : ℕ → ℕ) where
  pub next-first_of :
      (p : ℕ) (xs : List ℕ) (e : ℕ) → Links next prev p xs e → next p ≡ first_of xs e
  next-first_of p [] e links = links.0
  next-first_of p (x ∷ xs) e links = links.0

  pub prev-last_of : (p : ℕ) (xs : List ℕ) (e : ℕ) → Links next prev p xs e → prev e ≡ last_of p xs
  prev-last_of p [] e links = links.1
  prev-last_of p (x ∷ xs) e (f, b, links) = prev-last_of x xs e links

  pub Links-around :
      (p : ℕ) (us : List ℕ) (n : ℕ) (vs : List ℕ) (e : ℕ)
      → Links next prev p (us ++ n ∷ vs) e
      → (next n ≡ first_of vs e) × (prev n ≡ last_of p us)
  Links-around p [] n vs e (f, b, links) = (next-first_of n vs e links, b)
  Links-around p (u ∷ us) n vs e (f, b, links) = Links-around u us n vs e links

pub mem-insert :
    (a : ℕ) (us : List ℕ) (n : ℕ) (vs : List ℕ)
    → mem a (us ++ n ∷ vs) ≡ ((a == n) || mem a (us ++ vs))
mem-insert a [] n vs = refl
mem-insert a (u ∷ us) n vs = ground (arith, mem-insert a us n vs)

pub Distinct-insert :
    (us : List ℕ) (n : ℕ) (vs : List ℕ)
    → Distinct (us ++ vs)
    → mem n (us ++ vs) ≡ false
    → Distinct (us ++ n ∷ vs)
Distinct-insert [] n vs d m = (m, d)
Distinct-insert (u ∷ us) n vs d m =
    (ground (arith, mem-insert u us n vs), Distinct-insert us n vs d.1 (ground arith))

pub Distinct-drop :
    (us : List ℕ) (n : ℕ) (vs : List ℕ)
    → Distinct (us ++ n ∷ vs)
    → (mem n (us ++ vs) ≡ false) × Distinct (us ++ vs)
Distinct-drop [] n vs d = d
Distinct-drop (u ∷ us) n vs d =
    let m = mem-insert u us n vs in
    let rest = Distinct-drop us n vs d.1 in (ground arith, (ground arith, rest.1))

pub length-insert :
    (us : List ℕ) (n : ℕ) (vs : List ℕ) → length (us ++ n ∷ vs) ≡ length (us ++ vs) + 1
length-insert [] n vs = omega arith
length-insert (u ∷ us) n vs = omega (arith, length-insert us n vs)
