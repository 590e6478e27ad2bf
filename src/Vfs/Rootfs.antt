-- ===== src/Vfs/Rootfs.antt =====
-- blt/srv/vfs/rootfs.c, and `vget` of vnode.c. The file system has one directory.
use os_open_blt.Base.{
  false, same_text, ℕ, ◌+◌, true, not, Option, none, some, List, [], ◌∷◌, ◌++◌, ◌==◌, if◌then◌else◌,
  map, reverse, take,
}
use os_open_blt.Vfs.Types.{Inode, Vnode, Dirent, Cookie, u_dir, u_file, Superblock, VnodeOps}

-- The inode with a number, as the `read_vnode` of both file systems finds it.
pub read_vnode : ℕ → List Inode → Option Inode
read_vnode ino [] = none
read_vnode ino (inode ∷ inodes) = if inode.i_ino == ino then some inode else read_vnode ino inodes

-- The vnode that `vget` makes; the superblock at `super` is that of `sb`.
pub vget : ℕ → ℕ → List Inode → Vnode
vget super vnid inodes = record { v_vnid = vnid; v_sb = super; v_data = read_vnode vnid inodes }

-- The list of inodes from an inode on.
pub inodes_from : ℕ → List Inode → List Inode
inodes_from ino [] = []
inodes_from ino (inode ∷ inodes) =
    if inode.i_ino == ino then inode ∷ inodes else inodes_from ino inodes

pub inode_named : List ℕ → List Inode → Option Inode
inode_named path [] = none
inode_named path (inode ∷ inodes) =
    if same_text inode.i_name path then some inode else inode_named path inodes

pub rootfs_inew : List ℕ → ℕ → Inode
rootfs_inew name inode_max = record { i_ino = inode_max; i_name = name; i_offset = 0; i_size = 0 }

-- The names "." and "..".
abbrev pub dot : List ℕ
dot = b'.' ∷ []

abbrev pub dot_dot : List ℕ
dot_dot = b'.' ∷ b'.' ∷ []

pub rootfs_mount : ℕ → ℕ → Superblock → ℕ × Superblock × ℕ
rootfs_mount inode_max super sb =
    let inodes = rootfs_inew dot inode_max ∷ rootfs_inew dot_dot (inode_max + 1) ∷ [] in
    (0, record sb { sb_inodes = inodes; sb_root = vget super 0 inodes }, inode_max + 2)

pub rootfs_walk : Superblock → Vnode → List ℕ → Option Vnode
rootfs_walk sb parent path = elim parent.v_data [
  | none ↦ none
  | some first ↦ elim (inode_named path (inodes_from first.i_ino sb.sb_inodes)) [
    | none ↦ none
    | some inode ↦ some (vget parent.v_sb inode.i_ino sb.sb_inodes)
  ]
]

-- -1 is `2 ^ 32 - 1`, as the server returns it in an unsigned number.
pub rootfs_mkdir : ℕ → Superblock → Vnode → List ℕ → ℕ × Superblock × ℕ
rootfs_mkdir inode_max sb parent name =
    if not (parent.v_vnid == 0) then (0xffffffff, sb, inode_max) else (
      0,
      record sb { sb_inodes = sb.sb_inodes ++ rootfs_inew name inode_max ∷ [] },
      inode_max + 1,
    )

abbrev pub enotdir : ℕ
enotdir = 20

abbrev no_dirent : Dirent
no_dirent = record { d_fileno = 0; d_name = [] }

-- The entries of the only directory, the last inode first.
pub entries : List Inode → List Dirent
entries inodes =
    reverse (map (λ (i : Inode). record { d_fileno = i.i_ino; d_name = take 33 i.i_name }) inodes)

unfoldable pub fs_opendir : Superblock → Vnode → ℕ × Option Cookie
fs_opendir sb dir =
    let head = entries sb.sb_inodes in
    if not (dir.v_vnid == 0) then (enotdir, none) else (0, some (u_dir head head))

-- The directory operations of both file systems.
unfoldable pub fs_rewinddir : Cookie → Cookie
fs_rewinddir (u_dir head current) = u_dir head head
fs_rewinddir (u_file begin) = u_file begin

unfoldable pub fs_readdir : Cookie → ℕ × Dirent × Cookie
fs_readdir (u_dir head []) = (1, no_dirent, u_dir head [])
fs_readdir (u_dir head (d ∷ rest)) = (0, record d { d_name = take 32 d.d_name }, u_dir head rest)
fs_readdir (u_file begin) = (1, no_dirent, u_file begin)

unfoldable pub rootfs_vnode_ops : VnodeOps
rootfs_vnode_ops = record {
  walk = rootfs_walk;
  mount = rootfs_mount;
  mkdir = some rootfs_mkdir;
  opendir = some fs_opendir;
  has_closedir = true;
  rewinddir = fs_rewinddir;
  readdir = fs_readdir;
  open_file = none;
  close_file = none;
  has_free_cookie = false;
  read = none;
  rstat = none;
}
