-- ===== src/Vfs/Server/Drivers.antt =====
-- The file systems of blt/srv/vfs/rootfs.c and bootfs.c, against what the server expects of a driver.
use os_open_blt.Base.{
  ℕ, ◌≡◌, refl, ap, Option, none, some, List, arith, ◌==◌, Bool-cases, Option-cases, ◌*◌, inl, inr,
}
use os_open_blt.Vfs.Types.{Vnode, Cookie, u_dir, u_file, Superblock}
use os_open_blt.Vfs.Rootfs.{rootfs_vnode_ops, fs_opendir, entries}
use os_open_blt.Vfs.Bootfs.{BootEntry, bootfs_vnode_ops, bootfs_open}
use os_open_blt.Vfs.Server.Open.{GivesCookie, IsDriver}

abbrev Gives : (Superblock → Vnode → ℕ × Option Cookie) → Type 0
Gives g =
    (sb : Superblock) (vnode : Vnode)
    → (g sb vnode).0 ≡ 0
    → (k : Cookie) × ((g sb vnode).1 ≡ some k)

Gives-GivesCookie : (g : Superblock → Vnode → ℕ × Option Cookie) → Gives g → GivesCookie (some g)
Gives-GivesCookie g gives f sb vnode is =
    let same : g ≡ f = ap (λ o. elim o [ none ↦ g | some h ↦ h ]) is in rw (← same) (gives sb vnode)

fs_opendir-Gives : Gives fs_opendir
unfolding fs_opendir
fs_opendir-Gives sb dir ok = elim (Bool-cases (dir.v_vnid == 0)) [
  | inl is_root ↦ (u_dir (entries sb.sb_inodes) (entries sb.sb_inodes), rw is_root refl)
  | inr other ↦ ground (arith, other, ok)
]

bootfs_open-Gives : Gives bootfs_open
unfolding bootfs_open
bootfs_open-Gives sb vnode ok = elim (Option-cases vnode.v_data) [
  | inl is ↦ (u_file 0, rw is refl)
  | inr (inode, is) ↦ (u_file (inode.i_offset * 0x1000), rw is refl)
]

pub rootfs-IsDriver : IsDriver rootfs_vnode_ops
unfolding rootfs_vnode_ops
rootfs-IsDriver = record {
  closes = refl;
  opens_dir = Gives-GivesCookie fs_opendir fs_opendir-Gives;
  opens_file = λ f sb vnode is. ground (arith, is);
}

pub bootfs-IsDriver :
    (image : List BootEntry) (bytes : ℕ → ℕ) → IsDriver (bootfs_vnode_ops image bytes)
unfolding bootfs_vnode_ops
bootfs-IsDriver image bytes = record {
  closes = refl;
  opens_dir = Gives-GivesCookie fs_opendir fs_opendir-Gives;
  opens_file = Gives-GivesCookie bootfs_open bootfs_open-Gives;
}
