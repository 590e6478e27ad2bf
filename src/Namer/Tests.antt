-- ===== src/Namer/Tests.antt =====
-- A name server, and the theorems on it. A directory has the type 1.
use os_open_blt.Base.{same_text, ℕ, ◌<◌, ◌≡◌, refl, true, some, List, [], ◌∷◌, arith}
use os_open_blt.Namer.{
  Namer, namer_init, namer_create, namer_delete, resolve, find_entry, find_name,
}
use os_open_blt.Namer.Created.{IsPlace, IsCreated, namer_create-IsCreated}
use os_open_blt.Namer.Deleted.{namer_delete-namer_create}

abbrev vfs_name : List ℕ
vfs_name = b'v' ∷ b'f' ∷ b's' ∷ []

first-IsPlace : IsPlace 1 1 0 vfs_name (namer_init 1)
unfolding resolve find_entry find_name same_text namer_init
first-IsPlace = record { stands = refl; bound = omega arith; is_directory = refl; free = refl }

namer_create-IsCreated_example :
    (k : ℕ) × (s' : Namer) × (namer_create 1 1 vfs_name 2 (namer_init 1) ≡ (some k, s'))
    × IsCreated 1 1 vfs_name k (namer_init 1) s'
namer_create-IsCreated_example =
    namer_create-IsCreated 1 1 0 vfs_name 2 (namer_init 1) first-IsPlace

namer_delete-namer_create_example :
    (k : ℕ) × (s' : Namer) × (s'' : Namer) × (namer_create 1 1 vfs_name 1 (namer_init 1)
      ≡ (some k, s'))
    × (namer_delete 1 k s' ≡ (true, s''))
    × ((u : ℕ) → resolve u s'' ≡ resolve u (namer_init 1))
    × ((m : ℕ) → m < (namer_init 1).next_node → s''.node m ≡ (namer_init 1).node m)
namer_delete-namer_create_example =
    namer_delete-namer_create 1 1 0 vfs_name 1 (namer_init 1) first-IsPlace
