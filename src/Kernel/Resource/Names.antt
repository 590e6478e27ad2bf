-- ===== src/Kernel/Resource/Names.antt =====
-- The names of resources: `rsrc_set_name` of blt/kernel/resource.c.
use os_open_blt.Base.{
  ℕ, zero, suc, ◌≤◌, ◌≡◌, refl, false, Option, none, some, List, [], ◌∷◌, arith, mem, take, length,
}
use os_open_blt.Kernel.State.{Kernel}
use os_open_blt.Kernel.Resource.{copy_name, rsrc_set_name}

copy_name-fits :
    (n : ℕ) (s : List ℕ) → (length (copy_name n s) ≤ n) × (mem 0 (copy_name n s) ≡ false)
unfolding copy_name
copy_name-fits zero s = (omega arith, refl)
copy_name-fits (suc n) [] = (omega arith, refl)
copy_name-fits (suc n) (c ∷ s) = ground (arith, copy_name-fits n s)

copy_name-take : (n : ℕ) (s : List ℕ) → mem 0 s ≡ false → copy_name n s ≡ take n s
unfolding copy_name
copy_name-take zero s m = refl
copy_name-take (suc n) [] m = refl
copy_name-take (suc n) (c ∷ s) m = ground (arith, copy_name-take n s)

-- Whatever the name, the buffer of 32 bytes has room for it and its NUL, and no NUL stands inside.
pub rsrc_set_name-fits :
    (r : ℕ) (name : Option (List ℕ)) (k : Kernel)
    → (length ((rsrc_set_name r name k).rsrc r).name ≤ 31)
      × (mem 0 ((rsrc_set_name r name k).rsrc r).name ≡ false)
unfolding rsrc_set_name
rsrc_set_name-fits r none k = ground arith
rsrc_set_name-fits r (some s) k = ground (arith, copy_name-fits 31 s)

-- The name stored is the first 31 bytes of the one given.
pub rsrc_set_name-take :
    (r : ℕ) (s : List ℕ) (k : Kernel)
    → mem 0 s ≡ false
    → ((rsrc_set_name r (some s) k).rsrc r).name ≡ take 31 s
unfolding rsrc_set_name
rsrc_set_name-take r s k m = ground (arith, copy_name-take 31 s m)
