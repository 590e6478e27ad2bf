-- ===== src/Vfs/Bootfs.antt =====
-- blt/srv/vfs/bootfs.c: the files in the image that the machine was booted from. Its directory and its bytes
-- are in an area of memory, which are parameters of the operations. A vnode without an inode, which only
-- a second mount makes, is not used.
pub mod Reads
use os_open_blt.Base.{
  same_text, ℕ, zero, suc, ◌+◌, ◌-◌, ◌*◌, ◌/◌, ◌%◌, Bool, true, false, not, ◌&&◌, ◌||◌, Option,
  none, some, List, [], ◌∷◌, ◌++◌, ◌==◌, leb, if◌then◌else◌, take,
}
use os_open_blt.Vfs.Types.{Inode, Vnode, Dirent, Cookie, u_dir, u_file, Stat, Superblock, VnodeOps}
use os_open_blt.Vfs.Rootfs.{vget, inode_named, dot, dot_dot, fs_opendir, fs_rewinddir, fs_readdir}

-- `boot_entry`, less the fields that nothing uses.
pub record BootEntry : Type 0 where
  pub be_name : List ℕ
  pub be_offset : ℕ
  pub be_type : ℕ
  pub be_size : ℕ
  pub be_vsize : ℕ
  pub be_code_vaddr : ℕ
  pub be_code_ventr : ℕ

unfoldable pub bootfs_inew : List ℕ → ℕ → ℕ → ℕ → Inode
bootfs_inew name offset size inode_max = record {
  i_ino = inode_max;
  i_name = take 31 name;
  i_offset = offset;
  i_size = size;
}

-- "SBBB/Directory".
abbrev pub bootdir_directory : List ℕ
bootdir_directory =
    b'S' ∷ b'B' ∷ b'B' ∷ b'B' ∷ b'/' ∷ b'D' ∷ b'i' ∷ b'r' ∷ b'e' ∷ b'c' ∷ b't' ∷ b'o' ∷ b'r' ∷ b'y'
    ∷ []

-- The loop of `bootfs_mount` over the entries, at most 64.
pub list_inodes : List BootEntry → ℕ → List Inode → List Inode × ℕ
list_inodes [] inode_max inodes = (inodes, inode_max)
list_inodes (be ∷ rest) inode_max inodes =
    let real = not (be.be_type == 0) && not (same_text be.be_name bootdir_directory) in
    list_inodes rest (if real then inode_max + 1 else inode_max)
      (if real then bootfs_inew be.be_name be.be_offset be.be_vsize inode_max ∷ inodes else inodes)

pub bootfs_mount : List BootEntry → (ℕ → ℕ) → ℕ → ℕ → Superblock → ℕ × Superblock × ℕ
bootfs_mount bd_entry bootdir inode_max super sb =
    let first = bootfs_inew dot 0 0 inode_max ∷ bootfs_inew dot_dot 0 0 (inode_max + 1) ∷ [] in
    let (inodes, inode_max') = list_inodes (take 64 bd_entry) (inode_max + 2) first in
    (
      0,
      record sb { sb_inodes = inodes; sb_root = vget super 0 inodes; sb_bootdir = bootdir },
      inode_max',
    )

pub bootfs_walk : Superblock → Vnode → List ℕ → Option Vnode
bootfs_walk sb parent path =
    if not (parent.v_vnid == 0) then none else elim (inode_named path sb.sb_inodes) [
      | none ↦ none
      | some inode ↦ some (vget parent.v_sb inode.i_ino sb.sb_inodes)
    ]

-- A page has 4096 bytes.
unfoldable pub bootfs_open : Superblock → Vnode → ℕ × Option Cookie
bootfs_open sb v = elim v.v_data [
  | none ↦ (0, some (u_file 0))
  | some inode ↦ (0, some (u_file (inode.i_offset * 0x1000)))
]

unfoldable pub bootfs_close : Superblock → Vnode → Cookie → ℕ
bootfs_close sb v cookie = 0

-- `n` bytes from an address on.
unfoldable pub bytes_at : (ℕ → ℕ) → ℕ → ℕ → List ℕ
bytes_at m a zero = []
bytes_at m a (suc n) = m a ∷ bytes_at m (a + 1) n

-- The bytes that `bootfs_read` of an inode copies, as many as it stores in `*numread`.
pub read_inode : Superblock → Inode → ℕ → ℕ → List ℕ
read_inode sb inode count offset =
    let numread = if leb count (inode.i_size - offset) then count else inode.i_size - offset in
    if leb inode.i_size offset
    then []
    else bytes_at sb.sb_bootdir (inode.i_offset * 0x1000 + offset) numread

unfoldable pub bootfs_read : Superblock → Vnode → ℕ → ℕ → Cookie → ℕ × List ℕ
bootfs_read sb v count offset cookie = elim v.v_data [
  | none ↦ (0, [])
  | some inode ↦ (0, read_inode sb inode count offset)
]

pub bootfs_rstat : Superblock → Vnode → ℕ × Stat
bootfs_rstat sb v = elim v.v_data [
  | none ↦ (0, record { st_ino = 0; st_size = 0; st_blocks = 0 })
  | some inode ↦ (
    0,
    record {
      st_ino = inode.i_ino;
      st_size = inode.i_size;
      st_blocks = if inode.i_size % 4096 == 0 then inode.i_size / 4096 else inode.i_size / 4096 + 1;
    },
  )
]

unfoldable pub bootfs_vnode_ops : List BootEntry → (ℕ → ℕ) → VnodeOps
bootfs_vnode_ops bd_entry bootdir = record {
  walk = bootfs_walk;
  mount = bootfs_mount bd_entry bootdir;
  mkdir = none;
  opendir = some fs_opendir;
  has_closedir = true;
  rewinddir = fs_rewinddir;
  readdir = fs_readdir;
  open_file = some bootfs_open;
  close_file = some bootfs_close;
  has_free_cookie = true;
  read = some bootfs_read;
  rstat = some bootfs_rstat;
}
