-- ===== src/Vfs/Server/Main.antt =====
-- `vfs_main` of blt/srv/vfs/vfs.c: what it mounts, and one turn of its loop. The messages themselves, the
-- request that makes a connection and `shm_write`, whose body is compiled out, are left out; the client is
-- the one that sent the request.
pub mod Requests
use os_open_blt.Base.{ℕ, ◌==◌, Option, none, some, List, [], ◌∷◌, if◌then◌else◌}
use os_open_blt.Vfs.Types.{Dirent, Stat, VnodeOps, FsType, Vfs, Client, Res}
use os_open_blt.Vfs.Mounts.{fs_register, vfs_mount}
use os_open_blt.Vfs.Server.{
  vfs_ok, Request, ofile_at, set_ofile, vfs_mkdir, vfs_opendir, vfs_closedir, vfs_open, vfs_close,
  vfs_read, vfs_rstat, ◌>>=◌,
}
use os_open_blt.Vfs.Server.Listing.{shm_write_dir}

-- The names in the source.
abbrev root_dir : List ℕ
root_dir = b'/' ∷ []

abbrev boot_dir : List ℕ
boot_dir = b'/' ∷ b'b' ∷ b'o' ∷ b'o' ∷ b't' ∷ []

abbrev rootfs_name : List ℕ
rootfs_name = b'r' ∷ b'o' ∷ b'o' ∷ b't' ∷ b'f' ∷ b's' ∷ []

abbrev bootfs_name : List ℕ
bootfs_name = b'b' ∷ b'o' ∷ b'o' ∷ b't' ∷ b'f' ∷ b's' ∷ []

abbrev rootfs : FsType
rootfs = record { name = rootfs_name; t_vops = 0 }

abbrev bootfs : FsType
bootfs = record { name = bootfs_name; t_vops = 1 }

-- The mounts that `vfs_main` begins with; `v` has none. The operations of the two file systems are at 0 and 1.
pub mount_all : (ℕ → VnodeOps) → Vfs → Option Vfs
mount_all ops v = do
  let v1 = (fs_register bootfs (fs_register rootfs v).1).1
  (res, v2) ← vfs_mkdir ops boot_dir (vfs_mount ops root_dir rootfs_name v1).1
  some (vfs_mount ops boot_dir bootfs_name v2).1

-- A request, with the text of its path.
pub data Command : Type 0 where
  vfs_opendir_cmd : Request → ℕ → List ℕ → Command
  vfs_closedir_cmd : ℕ → Command
  vfs_open_cmd : Request → List ℕ → Command
  vfs_close_cmd : ℕ → Command
  vfs_read_cmd : ℕ → ℕ → Command
  vfs_rstat_cmd : List ℕ → Command
  vfs_mkdir_cmd : List ℕ → Command

-- What is sent back: the result, and what comes with it.
pub data Reply : Type 0 where
  answer : Res → Reply
  listing : Res → ℕ → List Dirent → Reply
  contents : Res → List ℕ → Reply
  found : Res → Option Stat → Reply

-- The directory that `vfs_opendir` opened is written for the client.
unfoldable pub list_opened : (ℕ → VnodeOps) → Vfs → ℕ → Res × Client → Option (Reply × Client)
list_opened ops v space (res, c) =
    if res.status == vfs_ok
    then (do
      fd ← res.first
      entry ← ofile_at fd c
      f ← entry
      (numents, dirents, f') ← shm_write_dir ops v f 0 space
      some (listing res numents dirents, set_ofile fd (some f') c))
    else some (answer res, c)

-- The `switch` of the loop.
unfoldable pub serve : (ℕ → VnodeOps) → Command → Vfs × Client → Option (Reply × Vfs × Client)
serve ops (vfs_opendir_cmd r space dir) (v, c) = do
  opened ← vfs_opendir ops v r dir c
  (reply, c') ← list_opened ops v space opened
  some (reply, v, c')
serve ops (vfs_closedir_cmd fd) (v, c) = do
  (res, c') ← vfs_closedir ops v fd c
  some (answer res, v, c')
serve ops (vfs_open_cmd r path) (v, c) = do
  (res, c') ← vfs_open ops v r path c
  some (answer res, v, c')
serve ops (vfs_close_cmd fd) (v, c) = do (res, c') ← vfs_close ops v fd c; some (answer res, v, c')
serve ops (vfs_read_cmd fd count) (v, c) = do
  (res, bytes, c') ← vfs_read ops v fd count c
  some (contents res bytes, v, c')
serve ops (vfs_rstat_cmd path) (v, c) = do
  (res, stat) ← vfs_rstat ops v path
  some (found res stat, v, c)
serve ops (vfs_mkdir_cmd dir) (v, c) = do
  (status, v') ← vfs_mkdir ops dir v
  some (answer (record { status = status; errno = 0; first = none }), v', c)
