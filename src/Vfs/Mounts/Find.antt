-- ===== src/Vfs/Mounts/Find.antt =====
-- `fs_find` of blt/srv/vfs/fs.c, against the mounts whose directory begins a path.
use os_open_blt.Base.{
  same_text, ℕ, ◌≤◌, ◌<◌, ◌≡◌, refl, Bool, true, false, ◌&&◌, Option, none, some, List, [], ◌∷◌,
  ltb, if◌then◌else◌, length, mem, arith, ◌⊎◌, inl, inr,
}
use os_open_blt.Vfs.Types.{Superblock, Vfs}
use os_open_blt.Vfs.Mounts.{is_prefix, best_mount, fs_find}

-- The length of the directory that is mounted at an address, 0 for none.
abbrev dir_length : (ℕ → Superblock) → Option ℕ → ℕ
dir_length super none = 0
dir_length super (some a) = length (super a).sb_dir

-- A mount, among some, whose directory begins a path.
abbrev pub Begins : (ℕ → Superblock) → List ℕ → List ℕ → ℕ → Type 0
Begins super node mounts a = (mem a mounts ≡ true) × (is_prefix (super a).sb_dir node ≡ true)

-- What `best_mount` returns, having begun with `best`.
abbrev Best : (ℕ → Superblock) → List ℕ → List ℕ → Option ℕ → Option ℕ → Type 0
Best super node mounts best r =
    ((r ≡ best) ⊎ ((a : ℕ) × (r ≡ some a) × Begins super node mounts a))
    × (dir_length super best ≤ dir_length super r)
    × ((b : ℕ) → Begins super node mounts b → length (super b).sb_dir ≤ dir_length super r)

-- One mount that the loop looks at, kept or not.
Best-step :
    (super : ℕ → Superblock) (node mounts : List ℕ) (p : ℕ) (best r : Option ℕ) (better : Bool)
    → better
      ≡ (is_prefix (super p).sb_dir node && ltb (dir_length super best) (length (super p).sb_dir))
    → Best super node mounts (if better then some p else best) r
    → Best super node (p ∷ mounts) best r
Best-step super node mounts p best r true is (kept, grows, longest) = (
  elim kept [
    | inl e ↦ inr (p, e, (ground arith, ground (arith, is)))
    | inr (a, e, (there, begins)) ↦ inr (a, e, (ground (arith, there), begins))
  ],
  ground (arith, is, grows),
  λ b (there, begins). grind (arith, longest b),
)
Best-step super node mounts p best r false is (kept, grows, longest) = (
  elim kept [
    | inl e ↦ inl e
    | inr (a, e, (there, begins)) ↦ inr (a, e, (ground (arith, there), begins))
  ],
  grows,
  λ b (there, begins). grind (arith, longest b),
)

best_mount-step :
    (super : ℕ → Superblock) (node mounts : List ℕ) (p : ℕ) (best : Option ℕ) (better : Bool)
    → better
      ≡ (is_prefix (super p).sb_dir node && ltb (dir_length super best) (length (super p).sb_dir))
    → best_mount super node (p ∷ mounts) (dir_length super best) best
      ≡ best_mount super node mounts
          (dir_length super (if better then some p else best))
          (if better then some p else best)
unfolding best_mount
best_mount-step super node mounts p best better is = ground (arith, is)

best_mount-Best :
    (super : ℕ → Superblock) (node mounts : List ℕ) (best : Option ℕ)
    → Best super node mounts best (best_mount super node mounts (dir_length super best) best)
unfolding best_mount
best_mount-Best super node [] best = (inl refl, omega arith, λ b h. ground (arith, h))
best_mount-Best super node (p ∷ mounts) best =
    let better =
      is_prefix (super p).sb_dir node && ltb (dir_length super best) (length (super p).sb_dir) in
    let best' = if better then some p else best in
    Best-step super node mounts p best
      (best_mount super node (p ∷ mounts) (dir_length super best) best) better refl
      (rw (best_mount-step super node mounts p best better refl)
        (best_mount-Best super node mounts best'))

-- What `fs_find` returns for the directories that begin a path: the mount of a longest one, and none only
-- where all of them are empty.
pub data Found (super : ℕ → Superblock) (node mounts : List ℕ) : Option ℕ → Type 0 where
  nothing :
      ((b : ℕ) → Begins super node mounts b → length (super b).sb_dir ≤ 0)
      → Found super node mounts none
  deepest :
      (a : ℕ)
      → Begins super node mounts a
      → ((b : ℕ) → Begins super node mounts b → length (super b).sb_dir ≤ length (super a).sb_dir)
      → Found super node mounts (some a)

Best-Found :
    (super : ℕ → Superblock) (node mounts : List ℕ) (r : Option ℕ)
    → Best super node mounts none r
    → Found super node mounts r
Best-Found super node mounts none (kept, grows, longest) = Found.nothing longest
Best-Found super node mounts (some a) (inl e, grows, longest) = ground (arith, e)
Best-Found super node mounts (some a) (inr (b, e, begins), grows, longest) =
    Found.deepest a (ground (arith, e, begins)) longest

-- `fs_find` returns none where every mount whose directory begins the path has an empty directory. Otherwise
-- it returns a mount whose directory begins the path, and no directory of another such mount is longer.
pub fs_find-Found : (node : List ℕ) (v : Vfs) → Found v.super node v.mount_list (fs_find node v)
unfolding fs_find
fs_find-Found node v =
    Best-Found v.super node v.mount_list (fs_find node v)
      (best_mount-Best v.super node v.mount_list none)

-- A path that the mount's directory begins, and is not, goes on.
pub begins_longer :
    (dir path : List ℕ)
    → is_prefix dir path ≡ true
    → same_text path dir ≡ false
    → length dir < length path
unfolding is_prefix same_text
begins_longer [] [] begins other = ground (arith, other)
begins_longer [] (y ∷ ys) begins other = omega arith
begins_longer (x ∷ xs) [] begins other = ground (arith, begins)
begins_longer (x ∷ xs) (y ∷ ys) begins other = ground (arith, begins_longer xs ys, begins, other)

Found-begins :
    {super : ℕ → Superblock} {node mounts : List ℕ} {r : Option ℕ} (a : ℕ)
    → Found super node mounts r
    → r ≡ some a
    → is_prefix (super a).sb_dir node ≡ true
Found-begins a (Found.nothing none_begins) is = ground (arith, is)
Found-begins a (Found.deepest b (there, begins) most) is = ground (arith, begins, is)

-- A path's mount begins it.
pub fs_find_begins :
    (path : List ℕ) (v : Vfs) (a : ℕ)
    → fs_find path v ≡ some a
    → is_prefix (v.super a).sb_dir path ≡ true
fs_find_begins path v a is = Found-begins a (fs_find-Found path v) is
