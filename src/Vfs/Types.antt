-- ===== src/Vfs/Types.antt =====
-- The data of blt/srv/vfs/vfs-int.h. A text is the list of its bytes, less the 0 at its end. A file system's
-- operations take its superblock, which holds its inodes; a pointer to a function that may be NULL is an
-- Option. What an operation only frees is left out.
use os_open_blt.Base.{ℕ, Bool, Option, List}

-- `struct rootfs_inode` and `struct bootfs_inode`; the first has no offset and no size.
pub record Inode : Type 0 where
  pub i_ino : ℕ
  pub i_name : List ℕ
  pub i_offset : ℕ
  pub i_size : ℕ

-- `v_sb` is the superblock's address; `v_data` the inode, if there is one.
pub record Vnode : Type 0 where
  pub v_vnid : ℕ
  pub v_sb : ℕ
  pub v_data : Option Inode

pub record Dirent : Type 0 where
  pub d_fileno : ℕ
  pub d_name : List ℕ

-- `union rootfs_cookie` and `union bootfs_cookie`: the entries of a directory and those left to read, or
-- where a file begins.
pub data Cookie : Type 0 where
  u_dir : List Dirent → List Dirent → Cookie
  u_file : ℕ → Cookie

pub record Stat : Type 0 where
  pub st_ino : ℕ
  pub st_size : ℕ
  pub st_blocks : ℕ

-- `sb_vops` is the address of the operations; `sb_inodes` and `sb_bootdir` are what `sb_data` points to.
pub record Superblock : Type 0 where
  pub sb_dir : List ℕ
  pub sb_root : Vnode
  pub sb_vops : ℕ
  pub sb_inodes : List Inode
  pub sb_bootdir : ℕ → ℕ

-- The operations of `struct vnode_ops` that the server calls. `mount` and `mkdir` take the driver's
-- `inode_max` and give the new one last. The first component of a result is 0 or an error, and a cookie is
-- none where nothing is stored.
pub record VnodeOps : Type 0 where
  pub walk : Superblock → Vnode → List ℕ → Option Vnode
  pub mount : ℕ → ℕ → Superblock → ℕ × Superblock × ℕ
  pub mkdir : Option (ℕ → Superblock → Vnode → List ℕ → ℕ × Superblock × ℕ)
  pub opendir : Option (Superblock → Vnode → ℕ × Option Cookie)
  pub has_closedir : Bool
  pub rewinddir : Cookie → Cookie
  pub readdir : Cookie → ℕ × Dirent × Cookie
  pub open_file : Option (Superblock → Vnode → ℕ × Option Cookie)
  pub close_file : Option (Superblock → Vnode → Cookie → ℕ)
  pub has_free_cookie : Bool
  pub read : Option (Superblock → Vnode → ℕ → ℕ → Cookie → ℕ × List ℕ)
  pub rstat : Option (Superblock → Vnode → ℕ × Stat)

-- `struct fs_type`.
pub record FsType : Type 0 where
  pub name : List ℕ
  pub t_vops : ℕ

-- `super` holds the superblocks by address, `next_super` is the address that malloc returns for the next
-- one, and `inode_max` is that of each driver, by the address of its operations.
pub record Vfs : Type 0 where
  pub fs_drivers : List FsType
  pub mount_list : List ℕ
  pub super : ℕ → Superblock
  pub next_super : ℕ
  pub inode_max : ℕ → ℕ

-- `o_cookie` is none where nothing was stored, and where it was freed.
pub record Ofile : Type 0 where
  pub o_vnode : Vnode
  pub o_cookie : Option Cookie
  pub area : ℕ
  pub offset : ℕ
  pub length : ℕ
  pub o_pos : ℕ

-- `struct client`, less its ports and its area of names.
pub record Client : Type 0 where
  pub cwd : List ℕ
  pub ofile : ℕ → Option Ofile

-- `vfs_res_t`; `first` is `data[0]`, if it was stored.
pub record Res : Type 0 where
  pub status : ℕ
  pub errno : ℕ
  pub first : Option ℕ
