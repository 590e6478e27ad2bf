-- ===== src/Libc/Files/Tests.antt =====
-- A program that reads the file and the directory of the server's tests, and the theorems on them.
use os_open_blt.Base.{ℕ, ◌≡◌, refl, Option, none, some, [], take, drop, map, arith, Returns}
use os_open_blt.Vfs.Types.{Client, Res}
use os_open_blt.Vfs.Bootfs.{bootfs_vnode_ops}
use os_open_blt.Vfs.Bootfs.Reads.{contents}
use os_open_blt.Vfs.Server.{sb_ops, finished}
use os_open_blt.Vfs.Server.Main.{Reply, list_opened}
use os_open_blt.Vfs.Server.Listing.{cut}
use os_open_blt.Vfs.Server.Reading.{gives}
use os_open_blt.Vfs.Server.Tests.{
  both_ops, mounted, reader, a_file, a_inode, boot_entries, boot_ofile, reader-IsBootFile,
}
use os_open_blt.Libc.Files.{read_vfs, opened_dir}
use os_open_blt.Libc.Files.Arrives.{waits, arrived, read_vfs-contents}
use os_open_blt.Libc.Files.Listed.{Reads, opened_dir-list_opened}

abbrev no_files : ℕ → Option ℕ
no_files fd = none

read_vfs-contents_example :
    read_vfs both_ops 0 2 (waits (mounted, reader) 0 no_files [])
    ≡ some (
        arrived mounted no_files
          (take 2 (drop 0 (contents (mounted.super 2) a_inode)))
          (gives 0 a_file reader (take 2 (drop 0 (contents (mounted.super 2) a_inode)))).2)
read_vfs-contents_example =
    read_vfs-contents both_ops mounted reader 0 no_files 0 2 a_file a_inode reader-IsBootFile

abbrev dir_reader : Client
dir_reader = record reader { ofile = λ fd. some boot_ofile }

abbrev opened : Res
opened = finished 0 (some 0)

opened_dir-list_opened_example :
    Returns
      (λ ((reply, c') : Reply × Client).
        Returns
          (Reads (map cut boot_entries))
          (opened_dir reply (waits (mounted, reader) 0 no_files [])))
      (list_opened both_ops mounted 204 (opened, dir_reader))
unfolding sb_ops bootfs_vnode_ops finished
opened_dir-list_opened_example =
    opened_dir-list_opened both_ops mounted 204 opened dir_reader 0 boot_ofile boot_entries []
      (waits (mounted, reader) 0 no_files []) refl refl (omega arith) refl refl refl refl
      (omega arith)
