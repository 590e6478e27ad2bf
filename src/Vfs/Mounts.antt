-- ===== src/Vfs/Mounts.antt =====
-- blt/srv/vfs/fs.c and super.c: file system drivers, and what is mounted where.
pub mod Find
use os_open_blt.Base.{
  same_text, ℕ, zero, suc, ◌+◌, Bool, true, false, ◌&&◌, Option, none, some, List, [], ◌∷◌, ◌++◌,
  ◌==◌, ltb, if◌then◌else◌, length, update,
}
use os_open_blt.Vfs.Types.{Vnode, Superblock, VnodeOps, FsType, Vfs}

-- The loop of `fs_register`, which does not look at the last driver's name: 1 if the name is there.
pub register_after : FsType → List FsType → ℕ × List FsType
register_after driver [] = (0, driver ∷ [])
register_after driver (p ∷ []) = (0, p ∷ driver ∷ [])
register_after driver (p ∷ q ∷ rest) =
    let (res, rest') = register_after driver (q ∷ rest) in
    if same_text p.name driver.name then (1, p ∷ q ∷ rest) else (res, p ∷ rest')

pub fs_register : FsType → Vfs → ℕ × Vfs
fs_register driver v =
    let (res, drivers) = register_after driver v.fs_drivers in
    (res, record v { fs_drivers = drivers })

-- `strncmp (dir, node, strlen (dir))` finds no difference.
pub is_prefix : List ℕ → List ℕ → Bool
is_prefix [] node = true
is_prefix (x ∷ xs) [] = false
is_prefix (x ∷ xs) (y ∷ ys) = if x == y then is_prefix xs ys else false

-- The loop of `fs_find`.
pub best_mount : (ℕ → Superblock) → List ℕ → List ℕ → ℕ → Option ℕ → Option ℕ
best_mount super node [] bestlen best = best
best_mount super node (p ∷ mounts) bestlen best =
    let dir = (super p).sb_dir in
    let better = is_prefix dir node && ltb bestlen (length dir) in
    best_mount super node mounts (if better then length dir else bestlen)
      (if better then some p else best)

pub fs_find : List ℕ → Vfs → Option ℕ
fs_find node v = best_mount v.super node v.mount_list 0 none

pub find_driver : List ℕ → List FsType → Option FsType
find_driver type [] = none
find_driver type (driver ∷ drivers) =
    if same_text driver.name type then some driver else find_driver type drivers

-- `ops` is the memory where the drivers keep their operations.
module _ (ops : ℕ → VnodeOps) where
  unfoldable pub vfs_mount : List ℕ → List ℕ → Vfs → ℕ × Vfs
  unfolding update
  vfs_mount dir type v = elim (find_driver type v.fs_drivers) [
    | none ↦ (1, v)
    | some driver ↦
        let a = v.next_super in
        let fresh : Superblock = record {
          sb_dir = dir;
          sb_root = record { v_vnid = 0; v_sb = a; v_data = none };
          sb_vops = driver.t_vops;
          sb_inodes = [];
          sb_bootdir = λ x. 0;
        } in
        let (res, super, inode_max) =
          (ops driver.t_vops).mount (v.inode_max driver.t_vops) a fresh in
        (
          res,
          record v {
            super = update v.super a super;
            next_super = a + 1;
            inode_max = update v.inode_max driver.t_vops inode_max;
            mount_list = if res == 0 then a ∷ v.mount_list else v.mount_list;
          },
        )
  ]
