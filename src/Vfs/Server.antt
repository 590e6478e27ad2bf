-- ===== src/Vfs/Server.antt =====
-- The requests of a client to the file system server, blt/srv/vfs/vfs.c. The request's words are arguments, a path
-- that is combined or read from the client's area is one too, and so is the area that `area_clone` returns. A
-- result of none is a read past the end of something, or through a pointer that was not set or that was freed.
pub mod Open
pub mod Opened
pub mod Close
pub mod Reading
pub mod Drivers
pub mod Main
pub mod Keeps
pub mod Tests
pub mod Listing
use os_open_blt.Base.{
  same_text, ℕ, zero, suc, ◌+◌, Bool, true, false, Option, none, some, List, [], ◌∷◌, ◌==◌, leb,
  ltb, if◌then◌else◌, length, drop, update,
}
use mathlib.Core.Option
use os_open_blt.Vfs.Types.{
  Inode, Vnode, Dirent, Cookie, Stat, Superblock, VnodeOps, Vfs, Ofile, Client, Res,
}
use os_open_blt.Vfs.Mounts.{fs_find}

abbrev pub ◌>>=◌ : {A B : Type 0} → Option A → (A → Option B) → Option B
◌>>=◌ = Option.bind

abbrev pub max_fds : ℕ
max_fds = 256

abbrev pub enoent : ℕ
enoent = 2

abbrev pub ebadf : ℕ
ebadf = 9

abbrev pub emfile : ℕ
emfile = 24

abbrev pub enosys : ℕ
enosys = 78

abbrev pub vfs_ok : ℕ
vfs_ok = 1

abbrev pub vfs_error : ℕ
vfs_error = 2

-- The client that `vfs_openconn` makes.
abbrev pub new_client : Client
new_client = record { cwd = b'/' ∷ []; ofile = λ fd. none }

-- The loop that looks for a descriptor, with `n` of them left to try from `i` on.
pub free_fd : (ℕ → Option Ofile) → ℕ → ℕ → ℕ
free_fd ofile zero i = i
free_fd ofile (suc n) i = elim (ofile i) [ none ↦ i | some f ↦ free_fd ofile n (i + 1) ]

pub failed : ℕ → Res
failed e = record { status = vfs_error; errno = e; first = none }

-- The status and the error that a file system's result sets.
unfoldable pub finished : ℕ → Option ℕ → Res
finished e first = record {
  status = if e == 0 then vfs_ok else vfs_error;
  errno = e;
  first = first;
}

-- The string `n` bytes after the start of one.
pub text_from : ℕ → List ℕ → Option (List ℕ)
text_from n path = if leb n (length path) then some (drop n path) else none

-- The descriptor's entry; there is no test of its bound.
unfoldable pub ofile_at : ℕ → Client → Option (Option Ofile)
ofile_at fd c = if ltb fd max_fds then some (c.ofile fd) else none

-- The words of a request that are used for a new descriptor, and what its memory held at `o_pos`.
pub record Request : Type 0 where
  pub r_area : ℕ
  pub r_offset : ℕ
  pub r_length : ℕ
  pub old_pos : ℕ

pub new_ofile : Request → Vnode → ℕ → Option Cookie → Ofile
new_ofile r vnode pos cookie = record {
  o_vnode = vnode;
  o_cookie = cookie;
  area = r.r_area;
  offset = r.r_offset;
  length = r.r_length;
  o_pos = pos;
}

-- The client after its entry for a descriptor is set.
pub set_ofile : ℕ → Option Ofile → Client → Client
set_ofile fd entry c = record c { ofile = update c.ofile fd entry }

-- `ops` is the memory where the drivers keep their operations.
module _ (ops : ℕ → VnodeOps) where
  unfoldable pub sb_ops : Vfs → ℕ → VnodeOps
  sb_ops v super = ops ((v.super super).sb_vops)

  -- The vnode of a path, which the mount's directory begins.
  pub walk_from : Vfs → ℕ → List ℕ → Option (Option Vnode)
  walk_from v super path =
      let sb = v.super super in
      Option.map ((sb_ops v super).walk sb sb.sb_root) (text_from (length sb.sb_dir + 1) path)

  pub vfs_mkdir : List ℕ → Vfs → Option (ℕ × Vfs)
  vfs_mkdir dir v = do
    super ← fs_find dir v
    let sb = v.super super
    elim ((sb_ops v super).mkdir) [
      | none ↦ some (enosys, v)
      | some mkdir ↦ do
        name ← text_from (length sb.sb_dir) dir
        let (res, sb', inode_max) = mkdir (v.inode_max sb.sb_vops) sb sb.sb_root name
        some (
          res,
          record v {
            super = update v.super super sb';
            inode_max = update v.inode_max sb.sb_vops inode_max;
          },
        )
    ]

  -- The last part of `vfs_opendir` and of `vfs_open`: a descriptor for a vnode, if there is one.
  pub install :
      Vfs
      → Request
      → ℕ
      → ℕ
      → (Superblock → Vnode → ℕ × Option Cookie)
      → Client
      → Option Vnode
      → Res × Client
  install v r i pos f c none = (failed enoent, c)
  install v r i pos f c (some vnode) =
      let (e, cookie) = f (v.super vnode.v_sb) vnode in
      (finished e (some i), set_ofile i (some (new_ofile r vnode pos cookie)) c)

  pub opendir_in : Vfs → Request → ℕ → List ℕ → Client → ℕ → Option (Res × Client)
  opendir_in v r i dir c super =
      let sb = v.super super in
      elim ((sb_ops v super).opendir) [
        | none ↦ some (failed enosys, c)
        | some f ↦
            Option.map (install v r i r.old_pos f c)
              (if same_text dir sb.sb_dir then some (some sb.sb_root) else walk_from v super dir)
      ]

  -- `dir` is the path that `path_combine` made.
  pub vfs_opendir : Vfs → Request → List ℕ → Client → Option (Res × Client)
  vfs_opendir v r dir c =
      let i = free_fd c.ofile max_fds 0 in
      if i == max_fds then some (failed emfile, c) else elim (fs_find dir v) [
        | none ↦ some (failed enoent, c)
        | some super ↦ opendir_in v r i dir c super
      ]

  pub vfs_closedir : Vfs → ℕ → Client → Option (Res × Client)
  vfs_closedir v fd c = do
    entry ← ofile_at fd c
    elim entry [
      | none ↦ some (failed ebadf, c)
      | some f ↦
          if (sb_ops v f.o_vnode.v_sb).has_closedir
          then (do
            cookie ← f.o_cookie
            some (record { status = vfs_ok; errno = 0; first = none }, set_ofile fd none c))
          else some (failed enosys, c)
    ]

  pub open_in : Vfs → Request → ℕ → List ℕ → Client → ℕ → Option (Res × Client)
  open_in v r i path c super = elim ((sb_ops v super).open_file) [
    | none ↦ some (failed enosys, c)
    | some f ↦ Option.map (install v r i 0 f c) (walk_from v super path)
  ]

  pub vfs_open : Vfs → Request → List ℕ → Client → Option (Res × Client)
  vfs_open v r path c =
      let i = free_fd c.ofile max_fds 0 in
      if i == max_fds then some (failed emfile, c) else elim (fs_find path v) [
        | none ↦ some (failed enoent, c)
        | some super ↦ open_in v r i path c super
      ]

  unfoldable pub vfs_close : Vfs → ℕ → Client → Option (Res × Client)
  vfs_close v fd c = do
    entry ← ofile_at fd c
    elim entry [
      | none ↦ some (failed ebadf, c)
      | some f ↦
          let super = f.o_vnode.v_sb in
          elim ((sb_ops v super).close_file) [
            | none ↦ some (failed enosys, c)
            | some close ↦ do
              cookie ← f.o_cookie
              let freed = set_ofile fd (some (record f { o_cookie = none })) c
              some (
                finished (close (v.super super) f.o_vnode cookie) none,
                if (sb_ops v super).has_free_cookie then freed else c,
              )
          ]
    ]

  -- The bytes read are those of `*data`.
  pub vfs_read : Vfs → ℕ → ℕ → Client → Option (Res × List ℕ × Client)
  vfs_read v fd count c = do
    entry ← ofile_at fd c
    elim entry [
      | none ↦ some (failed ebadf, [], c)
      | some f ↦
          let super = f.o_vnode.v_sb in
          elim ((sb_ops v super).read) [
            | none ↦ some (failed enosys, [], c)
            | some read ↦ do
              cookie ← f.o_cookie
              let (e, bytes) = read (v.super super) f.o_vnode count f.o_pos cookie
              some (
                finished e (some (length bytes)),
                bytes,
                set_ofile fd (some (record f { o_pos = f.o_pos + length bytes })) c,
              )
          ]
    ]

  pub vfs_rstat : Vfs → List ℕ → Option (Res × Option Stat)
  vfs_rstat v path = elim (fs_find path v) [
    | none ↦ some (failed enoent, none)
    | some super ↦ elim ((sb_ops v super).rstat) [
      | none ↦ some (failed enosys, none)
      | some rstat ↦ do
        found ← walk_from v super path
        elim found [
          | none ↦ some (failed enoent, none)
          | some vnode ↦
              let (e, stat) = rstat (v.super vnode.v_sb) vnode in some (finished e none, some stat)
        ]
    ]
  ]
