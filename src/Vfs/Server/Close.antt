-- ===== src/Vfs/Server/Close.antt =====
-- `vfs_closedir` of blt/srv/vfs/vfs.c, after what opened the descriptor.
use os_open_blt.Base.{
  ℕ, ◌<◌, ◌≡◌, refl, ◌∙◌, ap, fun_ext, Option, none, some, List, update, arith, Returns,
  Returns-mono,
}
use mathlib.Core.Option
use os_open_blt.Vfs.Types.{Cookie, VnodeOps, Vfs, Ofile, Client, Res}
use os_open_blt.Vfs.Server.Open.{Outcome, IsDriver, vfs_opendir-Outcome}
use os_open_blt.Vfs.Server.{
  max_fds, vfs_ok, failed, finished, ofile_at, Request, set_ofile, sb_ops, vfs_opendir,
  vfs_closedir,
}

set_ofile-set_ofile :
    (fd : ℕ) (f : Option Ofile) (c : Client)
    → c.ofile fd ≡ none
    → set_ofile fd none (set_ofile fd f c) ≡ c
unfolding set_ofile update
set_ofile-set_ofile fd f c free =
    ap (λ (g : ℕ → Option Ofile). record c { ofile = g }) (fun_ext (λ x. grind (arith, free)))

ofile_at-set_ofile :
    (fd : ℕ) (f : Option Ofile) (c : Client)
    → fd < max_fds
    → ofile_at fd (set_ofile fd f c) ≡ some f
unfolding ofile_at set_ofile update
ofile_at-set_ofile fd f c bound = ground (arith, bound)

closedir-closes :
    (ops : ℕ → VnodeOps) (v : Vfs) (fd : ℕ) (f : Ofile) (k : Cookie) (c : Client)
    → ((a : ℕ) → IsDriver (ops a))
    → fd < max_fds
    → f.o_cookie ≡ some k
    → vfs_closedir ops v fd (set_ofile fd (some f) c)
      ≡ some (finished 0 none, set_ofile fd none (set_ofile fd (some f) c))
unfolding vfs_closedir sb_ops finished Option.bind set_ofile
closedir-closes ops v fd f k c drivers bound given = rw (
  vfs_closedir,
  ofile_at-set_ofile fd (some f) c bound,
  (drivers (v.super f.o_vnode.v_sb).sb_vops).closes,
  given,
)

finished-ok : (e : ℕ) (first : Option ℕ) → (finished e first).status ≡ vfs_ok → e ≡ 0
unfolding finished
finished-ok e first ok = ground (arith, ok)

module _ (ops : ℕ → VnodeOps) (v : Vfs) where
  -- The descriptor of a successful answer closes, to the client as it was.
  abbrev pub ClosesTo : Client → Res × Client → Type 0
  ClosesTo c (res, c') =
      res.status ≡ vfs_ok
      → (fd : ℕ) × (res.first ≡ some fd) × (vfs_closedir ops v fd c' ≡ some (finished 0 none, c))

module _ (ops : ℕ → VnodeOps) (drivers : (a : ℕ) → IsDriver (ops a)) (v : Vfs) where
  Outcome-ClosesTo : (c : Client) (r : Res × Client) → Outcome c r → ClosesTo ops v c r
  unfolding failed finished
  Outcome-ClosesTo c r (Outcome.no_fd taken is) = λ ok. ground (arith, is, ok)
  Outcome-ClosesTo c r (Outcome.no_file is) = λ ok. ground (arith, is, ok)
  Outcome-ClosesTo c r (Outcome.no_operation is) = λ ok. ground (arith, is, ok)
  Outcome-ClosesTo c r (Outcome.opened fd e f bound low free given is) = rw is (λ ok.
      let (k, cookie) = given (finished-ok e (some fd) ok) in
      (
        fd,
        refl,
        closedir-closes ops v fd f k c drivers bound cookie
            ∙ ap (λ c1. some (finished 0 none, c1)) (set_ofile-set_ofile fd (some f) c free),
      ))

  -- Whatever the request, `vfs_opendir` returns; and where its answer is a success, `vfs_closedir` of the
  -- descriptor in it succeeds and gives the client as it was before both.
  pub vfs_closedir-vfs_opendir :
      (r : Request) (dir : List ℕ) (c : Client)
      → Returns (ClosesTo ops v c) (vfs_opendir ops v r dir c)
  vfs_closedir-vfs_opendir r dir c =
      Returns-mono (vfs_opendir ops v r dir c) (Outcome-ClosesTo c)
        (vfs_opendir-Outcome ops drivers v r dir c)
