-- ===== src/Base/Chains.antt =====
-- Singly linked chains in memory that end at 0.
use Prim.Native.Nat.{ℕ}
use mathlib.Core.Path.{◌≡◌}
use mathlib.Core.Logic.{◌≢◌}
use mathlib.Core.Bool.{true, false}
use mathlib.Core.List.{List, [], ◌∷◌}
use native.Mathlib.Omega.{arith}
use os_open_blt.Base.Lists.{mem}

-- From `p` the `next` pointers lead through the nodes `xs` to 0.
abbrev pub Chain : (ℕ → ℕ) → ℕ → List ℕ → Type 0
Chain next p [] = p ≡ 0
Chain next p (x ∷ xs) = (p ≡ x) × (x ≢ 0) × Chain next (next x) xs

pub ne_of_mem : (a x : ℕ) (xs : List ℕ) → mem a xs ≡ false → mem x xs ≡ true → x ≢ a
ne_of_mem a x [] p q = λ _. cc
ne_of_mem a x (y ∷ ys) p q = ground (arith, ne_of_mem a x ys)

pub Chain-start :
    (next : ℕ → ℕ) {p p' : ℕ} (xs : List ℕ) → p' ≡ p → Chain next p xs → Chain next p' xs
Chain-start next xs e c = rw e c

pub Chain-frame :
    (next next' : ℕ → ℕ) (p : ℕ) (xs : List ℕ)
    → ((x : ℕ) → mem x xs ≡ true → next' x ≡ next x)
    → Chain next p xs
    → Chain next' p xs
Chain-frame next next' p [] same c = c
Chain-frame next next' p (x ∷ xs) same (e, ne, c) =
    let here : next' x ≡ next x = same x (ground arith) in
    (e, ne, rw here (Chain-frame next next' (next x) xs (λ y m. same y (ground arith)) c))
