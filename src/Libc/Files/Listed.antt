-- ===== src/Libc/Files/Listed.antt =====
-- What `_readdir` of blt/lib/libc/vfs.c gives of a directory that blt/srv/vfs/vfs.c has opened and listed.
use os_open_blt.Base.{
  take_all, ℕ, zero, suc, ◌-◌, ◌<◌, ◌≡◌, refl, sym, ◌∙◌, ap, true, false, Option, none, some, List,
  [], ◌∷◌, ◌==◌, length, map, arith, Returns, Returns-bind, lt→ltb,
}
use mathlib.Core.Option
use os_open_blt.Vfs.Types.{Dirent, u_dir, VnodeOps, Vfs, Ofile, Client, Res}
use os_open_blt.Vfs.Rootfs.{fs_readdir, fs_rewinddir}
use os_open_blt.Vfs.Server.{vfs_ok, max_fds, ofile_at, sb_ops}
use os_open_blt.Vfs.Server.Main.{Reply, list_opened}
use os_open_blt.Vfs.Server.Listing.{cut, shm_write_dir, shm_write_dir-entries}
use os_open_blt.Libc.Files.{Dir, Session, readdir, opened_dir}

-- Calls of `readdir` up to the end of the directory.
unfoldable pub all_entries : ℕ → Dir → Option (List Dirent)
all_entries zero d = none
all_entries (suc fuel) d = Option.bind (readdir d) (λ ((entry, d') : Option Dirent × Dir).
    elim entry [ none ↦ some [] | some e ↦ Option.map (λ es. e ∷ es) (all_entries fuel d') ])

all_entries-whole :
    (fd : ℕ) (es : List Dirent) (left : ℕ)
    → left ≡ length es
    → all_entries (suc (length es)) (record { fd = fd; entries = es; left = left }) ≡ some es
unfolding all_entries readdir Option.bind
all_entries-whole fd [] left is =
    let at_end : (left == 0) ≡ true = ground (arith, is) in rw at_end refl
all_entries-whole fd (e ∷ es) left is =
    let some_left : (left == 0) ≡ false = ground (arith, is) in
    rw some_left
      (ap (Option.map (λ xs. e ∷ xs)) (all_entries-whole fd es (left - 1) (omega (arith, is))))

length-map : (f : Dirent → Dirent) (es : List Dirent) → length (map f es) ≡ length es
length-map f [] = refl
length-map f (e ∷ es) = ap suc (length-map f es)

-- The program's directory, and what it reads of it.
abbrev pub Reads : List Dirent → Option Dir × Session → Type 0
Reads es (none, s) = ⊥
Reads es (some d, s) = all_entries (suc (length es)) d ≡ some es

-- When the server has opened a directory of one of its two file systems and has space for one entry more than there
-- are, the calls of `readdir` on what the program is given return each entry once, in order, and then the end.
pub opened_dir-list_opened :
    (ops : ℕ → VnodeOps) (v : Vfs) (space : ℕ) (res : Res) (c : Client) (fd : ℕ) (f : Ofile)
    (head current : List Dirent) (s : Session)
    → res.status ≡ vfs_ok
    → res.first ≡ some fd
    → fd < max_fds
    → c.ofile fd ≡ some f
    → (sb_ops ops v f.o_vnode.v_sb).readdir ≡ fs_readdir
    → (sb_ops ops v f.o_vnode.v_sb).rewinddir ≡ fs_rewinddir
    → f.o_cookie ≡ some (u_dir head current)
    → length head < space
    → Returns
        (λ ((reply, c') : Reply × Client). Returns (Reads (map cut head)) (opened_dir reply s))
        (list_opened ops v space (res, c))
unfolding list_opened opened_dir ofile_at Option.bind
opened_dir-list_opened ops v space res c fd f head current s ok first bound there reads rewinds is
      small =
    rw (list_opened, ok, first, lt→ltb fd max_fds bound, there)
      (Returns-bind (shm_write_dir ops v f 0 space) _ _
        (λ written (entries, ends, fits).
          (let whole : written.1 ≡ map cut head =
              entries ∙ ap (map cut) (take_all space head (omega (arith, small))) in
            rw whole (
              all_entries-whole fd (map cut head) written.0
                (ends small ∙ sym (length-map cut head)))))
        (shm_write_dir-entries ops v f space head current reads rewinds is))
