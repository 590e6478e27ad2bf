-- ===== src/Vfs/Server/Tests.antt =====
-- A server with a boot image of one file, a client, and the theorems on them.
use os_open_blt.Base.{
  ℕ, ◌-◌, ◌<◌, ◌≤◌, ◌≡◌, refl, ◌==◌, none, some, List, [], ◌∷◌, ◌++◌, if◌then◌else◌, length, take,
  drop, map, arith, Returns, Bool-cases, inl, inr,
}
use os_open_blt.Vfs.Types.{Inode, Dirent, u_dir, u_file, Superblock, VnodeOps, Vfs, Ofile, Client}
use os_open_blt.Vfs.Rootfs.{rootfs_vnode_ops, dot}
use os_open_blt.Vfs.Bootfs.{BootEntry, bootfs_vnode_ops}
use os_open_blt.Vfs.Bootfs.Reads.{contents}
use os_open_blt.Vfs.Mounts.{fs_find}
use os_open_blt.Vfs.Mounts.Find.{Found, fs_find-Found}
use os_open_blt.Vfs.Server.{Request, new_client, finished, sb_ops, vfs_opendir, vfs_open, vfs_read}
use os_open_blt.Vfs.Server.Open.{IsDriver}
use os_open_blt.Vfs.Server.Opened.{Opened, WalksOn, vfs_open-Opened}
use os_open_blt.Vfs.Server.Close.{ClosesTo, vfs_closedir-vfs_opendir}
use mathlib.Core.Option
use os_open_blt.Vfs.Bootfs.{bootfs_close}
use os_open_blt.Vfs.Server.{ofile_at, set_ofile, vfs_close}
use os_open_blt.Vfs.Server.Keeps.{InUse}
use os_open_blt.Vfs.Server.Main.{Command, Reply, serve}
use os_open_blt.Vfs.Server.Main.Requests.{closes, Served, Served-InUse}
use os_open_blt.Vfs.Server.Drivers.{rootfs-IsDriver, bootfs-IsDriver}
use os_open_blt.Vfs.Server.Reading.{IsBootFile, gives, vfs_read-contents, vfs_read-vfs_read}
use os_open_blt.Vfs.Server.Listing.{cut, shm_write_dir, shm_write_dir-entries}

-- The file `a` of three bytes, in page 1 of the image.
abbrev image : List BootEntry
image =
    record {
      be_name = b'a' ∷ [];
      be_offset = 1;
      be_type = 2;
      be_size = 1;
      be_vsize = 3;
      be_code_vaddr = 0;
      be_code_ventr = 0;
    }
    ∷ []

abbrev image_bytes : ℕ → ℕ
image_bytes = λ x. if x == 0x1000 then 7 else (if x == 0x1001 then 8 else 9)

abbrev pub both_ops : ℕ → VnodeOps
both_ops = λ a. if a == 0 then rootfs_vnode_ops else bootfs_vnode_ops image image_bytes

both_ops-IsDriver : (a : ℕ) → IsDriver (both_ops a)
both_ops-IsDriver a = elim (Bool-cases (a == 0)) [
  | inl is ↦ rw is rootfs-IsDriver
  | inr other ↦ rw other (bootfs-IsDriver image image_bytes)
]

abbrev dot_inode : Inode
dot_inode = record { i_ino = 0; i_name = dot; i_offset = 0; i_size = 0 }

abbrev pub a_inode : Inode
a_inode = record { i_ino = 2; i_name = b'a' ∷ []; i_offset = 1; i_size = 3 }

-- The superblocks as `vfs_main` leaves them: the root's at 1, that of `/boot` at 2.
abbrev root_super : Superblock
root_super = record {
  sb_dir = b'/' ∷ [];
  sb_root = record { v_vnid = 0; v_sb = 1; v_data = some dot_inode };
  sb_vops = 0;
  sb_inodes = dot_inode ∷ [];
  sb_bootdir = λ x. 0;
}

abbrev boot_path : List ℕ
boot_path = b'/' ∷ b'b' ∷ b'o' ∷ b'o' ∷ b't' ∷ []

abbrev boot_super : Superblock
boot_super = record {
  sb_dir = boot_path;
  sb_root = record { v_vnid = 0; v_sb = 2; v_data = some dot_inode };
  sb_vops = 1;
  sb_inodes = a_inode ∷ dot_inode ∷ [];
  sb_bootdir = image_bytes;
}

abbrev pub mounted : Vfs
mounted = record {
  fs_drivers = [];
  mount_list = 2 ∷ 1 ∷ [];
  super = λ a. if a == 1 then root_super else boot_super;
  next_super = 3;
  inode_max = λ a. 3;
}

abbrev request : Request
request = record { r_area = 5; r_offset = 0; r_length = 100; old_pos = 3 }

abbrev file_path : List ℕ
file_path = boot_path ++ b'/' ∷ b'a' ∷ []

-- The file's descriptor, as `vfs_open` leaves it.
abbrev pub a_file : Ofile
a_file = record {
  o_vnode = record { v_vnid = 2; v_sb = 2; v_data = some a_inode };
  o_cookie = some (u_file 0x1000);
  area = 5;
  offset = 0;
  length = 100;
  o_pos = 0;
}

abbrev pub reader : Client
reader = record { cwd = b'/' ∷ []; ofile = λ fd. if fd == 0 then some a_file else none }

pub reader-IsBootFile : IsBootFile both_ops mounted 0 a_file a_inode reader
unfolding sb_ops bootfs_vnode_ops
reader-IsBootFile = record {
  bound = omega arith;
  there = refl;
  cookie = (u_file 0x1000, refl);
  reads = refl;
  is_inode = refl;
}

file_path-WalksOn : WalksOn mounted file_path
file_path-WalksOn a is = elim (Bool-cases (a == 1)) [
  | inl root ↦ rw root (omega arith)
  | inr other ↦ rw other (omega arith)
]

fs_find-Found_example : Found mounted.super file_path mounted.mount_list (fs_find file_path mounted)
fs_find-Found_example = fs_find-Found file_path mounted

vfs_open-Opened_example :
    Returns
      (Opened both_ops mounted request file_path new_client)
      (vfs_open both_ops mounted request file_path new_client)
vfs_open-Opened_example =
    vfs_open-Opened both_ops mounted request file_path new_client file_path-WalksOn

vfs_closedir-vfs_opendir_example :
    Returns
      (ClosesTo both_ops mounted new_client)
      (vfs_opendir both_ops mounted request boot_path new_client)
vfs_closedir-vfs_opendir_example =
    vfs_closedir-vfs_opendir both_ops both_ops-IsDriver mounted request boot_path new_client

vfs_read-contents_example :
    vfs_read both_ops mounted 0 2 reader
    ≡ some (gives 0 a_file reader (take 2 (drop 0 (contents boot_super a_inode))))
vfs_read-contents_example =
    vfs_read-contents both_ops mounted 0 2 a_file a_inode reader reader-IsBootFile

vfs_read-vfs_read_example :
    (xs : List ℕ) × (ys : List ℕ) × (c1 : Client) × (c2 : Client) × (vfs_read both_ops mounted 0 2
        reader
      ≡ some (finished 0 (some (length xs)), xs, c1))
    × (vfs_read both_ops mounted 0 5 c1 ≡ some (finished 0 (some (length ys)), ys, c2))
    × (vfs_read both_ops mounted 0 7 reader
        ≡ some (finished 0 (some (length (xs ++ ys))), xs ++ ys, c2))
vfs_read-vfs_read_example =
    vfs_read-vfs_read both_ops mounted 0 2 5 a_file a_inode reader reader-IsBootFile

abbrev pub boot_entries : List Dirent
boot_entries =
    record { d_fileno = 0; d_name = dot } ∷ record { d_fileno = 2; d_name = b'a' ∷ [] } ∷ []

abbrev pub boot_ofile : Ofile
boot_ofile = record a_file { o_cookie = some (u_dir boot_entries []) }

shm_write_dir-entries_example :
    Returns
      (λ ((numents, dirents, f') : ℕ × List Dirent × Ofile).
        (dirents ≡ map cut (take 2 boot_entries))
        × (length boot_entries < 2 → numents ≡ length boot_entries)
        × (2 ≤ length boot_entries → numents ≡ 2 - 1))
      (shm_write_dir both_ops mounted boot_ofile 0 2)
unfolding sb_ops bootfs_vnode_ops
shm_write_dir-entries_example =
    shm_write_dir-entries both_ops mounted boot_ofile 2 boot_entries [] refl refl refl

-- After the file is closed its cookie is freed.
abbrev closed_reader : Client
closed_reader = set_ofile 0 (some (record a_file { o_cookie = none })) reader

-- The answer to `vfs_close` of descriptor 0, whose entry stays.
abbrev closing : List Command
closing = Command.vfs_close_cmd 0 ∷ []

closed : Served both_ops closing (mounted, reader) (mounted, closed_reader)
unfolding serve vfs_close ofile_at sb_ops finished bootfs_vnode_ops bootfs_close Option.bind
closed =
    Served.step (Command.vfs_close_cmd 0) [] (Reply.answer (finished 0 none)) (mounted, reader)
      (mounted, closed_reader) (mounted, closed_reader) refl (Served.done (mounted, closed_reader))

Served-InUse_example : InUse 0 closed_reader
unfolding closes
Served-InUse_example =
    Served-InUse both_ops 0 closing (mounted, reader) (mounted, closed_reader) (refl, tt) closed
      (λ h. ground (arith, h))
