-- ===== src/Kernel/Memory/Sizes.antt =====
-- The table from sizes to pools of blt/kernel/memory.c.
use os_open_blt.Base.{
  ℕ, zero, suc, ◌+◌, ◌-◌, List, [], ◌∷◌, ap, ◌∙◌, ◌<◌, ◌≡◌, refl, Bool, true, false, ◌&&◌, ◌||◌,
  ltb, leb, ◌==◌, get_or, arith,
}
use os_open_blt.Kernel.Memory.{size_map, km_map}

-- Pool `i` is the best one for the size.
fits : ℕ → ℕ → Bool
fits size i = ltb i 7 && leb size (km_map i).size && ((i == 0) || ltb (km_map (i - 1)).size size)

-- The next `k` entries of the table are right, if the first one is that of `size`.
table_fits : ℕ → List ℕ → ℕ → Bool
table_fits size is zero = true
table_fits size [] (suc k) = false
table_fits size (i ∷ is) (suc k) = fits size i && table_fits (size + 1) is k

entry-fits :
    (k size : ℕ) (is : List ℕ) (n : ℕ)
    → table_fits size is k ≡ true
    → n < k
    → fits (size + n) (get_or is n 0) ≡ true
unfolding table_fits
entry-fits zero size is n all low = absurd (omega arith)
entry-fits (suc k) size [] n all low = absurd cc
entry-fits (suc k) size (i ∷ is) zero all low =
    let here : size + 0 ≡ size = omega arith in rw here (ground arith)
entry-fits (suc k) size (i ∷ is) (suc n) all low =
    let next : size + suc n ≡ size + 1 + n = omega arith in
    rw next (entry-fits k (size + 1) is n (ground arith) (omega arith))

size_map-fits : table_fits 0 size_map 256 ≡ true
unfolding table_fits fits
size_map-fits = refl

and-parts : (a b c : Bool) → (a && b && c) ≡ true → (a ≡ true) × (b ≡ true) × (c ≡ true)
and-parts true true true h = (refl, refl, refl)
and-parts true true false h = absurd cc
and-parts true false c h = absurd cc
and-parts false b c h = absurd cc

-- Every size that `kmallocB` takes has a pool, whose blocks are large enough, and the pool before it, if
-- there is one, has blocks that are too small.
pub size_map_best :
    (size : ℕ)
    → size < 256
    → (ltb (get_or size_map size 0) 7 ≡ true)
      × (leb size (km_map (get_or size_map size 0)).size ≡ true)
      × (((get_or size_map size 0 == 0) || ltb (km_map (get_or size_map size 0 - 1)).size size)
          ≡ true)
unfolding fits
size_map_best size low = and-parts _ _ _ (
    ap (λ n. fits n (get_or size_map size 0)) (omega arith)
    ∙ entry-fits 256 0 size_map size size_map-fits low)
