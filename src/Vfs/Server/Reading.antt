-- ===== src/Vfs/Server/Reading.antt =====
-- `vfs_read` of blt/srv/vfs/vfs.c from a file of the boot file system.
use os_open_blt.Base.{
  ℕ, ◌+◌, ◌<◌, ◌≡◌, sym, ◌∙◌, ap, fun_ext, Option, some, List, ◌++◌, length, length-append, take,
  drop, update, arith, lt→ltb,
}
use mathlib.Core.Option
use os_open_blt.Vfs.Types.{Inode, Cookie, VnodeOps, Vfs, Ofile, Client, Res}
use os_open_blt.Vfs.Bootfs.{read_inode, bootfs_read}
use os_open_blt.Vfs.Bootfs.Reads.{contents, read_inode-contents, read_inode-append}
use os_open_blt.Vfs.Server.{max_fds, finished, ofile_at, set_ofile, sb_ops, vfs_read}

-- The entry of a file after so many bytes are read.
abbrev advanced : Ofile → ℕ → Ofile
advanced f n = record f { o_pos = f.o_pos + n }

-- The answer for the bytes that were read, which the descriptor's position moves by.
abbrev pub gives : ℕ → Ofile → Client → List ℕ → Res × List ℕ × Client
gives fd f c bytes =
    (finished 0 (some (length bytes)), bytes, set_ofile fd (some (advanced f (length bytes))) c)

-- An open descriptor for an inode of the boot file system.
pub record IsBootFile (ops : ℕ → VnodeOps) (v : Vfs) (fd : ℕ) (f : Ofile) (inode : Inode)
    (c : Client) : Type 0 where
  pub bound : fd < max_fds
  pub there : c.ofile fd ≡ some f
  pub cookie : (k : Cookie) × (f.o_cookie ≡ some k)
  pub reads : (sb_ops ops v f.o_vnode.v_sb).read ≡ some bootfs_read
  pub is_inode : f.o_vnode.v_data ≡ some inode

vfs_read-read_inode :
    (ops : ℕ → VnodeOps) (v : Vfs) (fd n : ℕ) (f : Ofile) (inode : Inode) (c : Client)
    → IsBootFile ops v fd f inode c
    → vfs_read ops v fd n c
      ≡ some (gives fd f c (read_inode (v.super f.o_vnode.v_sb) inode n f.o_pos))
unfolding vfs_read ofile_at Option.bind bootfs_read
vfs_read-read_inode ops v fd n f inode c ok =
    rw (vfs_read, lt→ltb fd max_fds ok.bound, ok.there, ok.reads, ok.cookie.1, ok.is_inode)

advanced-IsBootFile :
    (ops : ℕ → VnodeOps) (v : Vfs) (fd n : ℕ) (f : Ofile) (inode : Inode) (c : Client)
    → IsBootFile ops v fd f inode c
    → IsBootFile ops v fd (advanced f n) inode (set_ofile fd (some (advanced f n)) c)
unfolding set_ofile update
advanced-IsBootFile ops v fd n f inode c ok = record {
  bound = ok.bound;
  there = ground arith;
  cookie = ok.cookie;
  reads = ok.reads;
  is_inode = ok.is_inode;
}

-- `vfs_read` of an open file of the boot file system gives the bytes of the file from the descriptor's position
-- on, as many as are asked for and there are, and moves the position by their number.
pub vfs_read-contents :
    (ops : ℕ → VnodeOps) (v : Vfs) (fd n : ℕ) (f : Ofile) (inode : Inode) (c : Client)
    → IsBootFile ops v fd f inode c
    → vfs_read ops v fd n c
      ≡ some (gives fd f c (take n (drop f.o_pos (contents (v.super f.o_vnode.v_sb) inode))))
vfs_read-contents ops v fd n f inode c ok =
    vfs_read-read_inode ops v fd n f inode c ok
    ∙ ap (λ bytes. some (gives fd f c bytes))
        (read_inode-contents (v.super f.o_vnode.v_sb) inode n f.o_pos)

set_ofile-set_ofile :
    (fd : ℕ) (f g : Option Ofile) (c : Client)
    → set_ofile fd g (set_ofile fd f c) ≡ set_ofile fd g c
unfolding set_ofile update
set_ofile-set_ofile fd f g c =
    ap (λ (t : ℕ → Option Ofile). record c { ofile = t }) (fun_ext (λ x. ground arith))

-- Two calls of `vfs_read` on an open file of the boot file system give what one call for both counts gives, in
-- two parts, and leave the same client.
pub vfs_read-vfs_read :
    (ops : ℕ → VnodeOps) (v : Vfs) (fd n k : ℕ) (f : Ofile) (inode : Inode) (c : Client)
    → IsBootFile ops v fd f inode c
    → (xs : List ℕ) × (ys : List ℕ) × (c1 : Client) × (c2 : Client) × (vfs_read ops v fd n c
        ≡ some (finished 0 (some (length xs)), xs, c1))
      × (vfs_read ops v fd k c1 ≡ some (finished 0 (some (length ys)), ys, c2))
      × (vfs_read ops v fd (n + k) c ≡ some (finished 0 (some (length (xs ++ ys))), xs ++ ys, c2))
vfs_read-vfs_read ops v fd n k f inode c ok =
    let sb = v.super f.o_vnode.v_sb in
    let xs = read_inode sb inode n f.o_pos in
    let ys = read_inode sb inode k (f.o_pos + length xs) in
    let f1 = advanced f (length xs) in
    let c1 = set_ofile fd (some f1) c in
    let c2 = set_ofile fd (some (advanced f1 (length ys))) c1 in
    (
      xs,
      ys,
      c1,
      c2,
      vfs_read-read_inode ops v fd n f inode c ok,
      vfs_read-read_inode ops v fd k f1 inode c1
          (advanced-IsBootFile ops v fd (length xs) f inode c ok),
      vfs_read-read_inode ops v fd (n + k) f inode c ok
          ∙ ap (λ bytes. some (gives fd f c bytes)) (read_inode-append sb inode n k f.o_pos)
          ∙ ap (λ c'. some (finished 0 (some (length (xs ++ ys))), xs ++ ys, c'))
              (ap (λ pos. set_ofile fd (some (record f { o_pos = pos })) c)
                  (omega (arith, length-append xs ys))
                ∙ sym (set_ofile-set_ofile fd (some f1) (some (advanced f1 (length ys))) c)),
    )
