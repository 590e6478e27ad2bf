-- ===== src/Vfs/Server/Keeps.antt =====
-- The requests to the server, blt/srv/vfs/vfs.c, one by one, and a descriptor that is in use.
use os_open_blt.Base.{
  same_text, ℕ, ◌≡◌, ◌≢◌, Bool, true, false, Option, none, some, List, ◌==◌, if◌then◌else◌, update,
  arith, IfReturns, IfReturns-bind, IfReturns-map, IfReturns-if, IfReturns-elim,
}
use os_open_blt.Vfs.Types.{Vnode, Cookie, Superblock, VnodeOps, Vfs, Ofile, Client, Res}
use os_open_blt.Vfs.Mounts.{fs_find}
use os_open_blt.Vfs.Server.{
  max_fds, free_fd, ofile_at, set_ofile, sb_ops, walk_from, Request, install, opendir_in, open_in,
  vfs_opendir, vfs_closedir, vfs_open, vfs_close, vfs_read,
}

-- A descriptor is in use.
abbrev pub InUse : ℕ → Client → Type 0
InUse fd c = c.ofile fd ≢ none

-- What a request gives keeps a descriptor in use.
abbrev pub Keeps : ℕ → Client → Res × Client → Type 0
Keeps fd c r = InUse fd c → InUse fd r.1

pub set_ofile-some :
    (fd i : ℕ) (f : Ofile) (c : Client) → InUse fd c → InUse fd (set_ofile i (some f) c)
unfolding set_ofile update
set_ofile-some fd i f c used = λ h. ground (arith, used, h)

set_ofile-other :
    (fd i : ℕ) (f : Option Ofile) (c : Client)
    → (i == fd) ≡ false
    → InUse fd c
    → InUse fd (set_ofile i f c)
unfolding set_ofile update
set_ofile-other fd i f c apart used = λ h. ground (arith, used, h, apart)

InUse-if :
    (fd : ℕ) (b : Bool) (c1 c : Client)
    → (InUse fd c → InUse fd c1)
    → InUse fd c
    → InUse fd (if b then c1 else c)
InUse-if fd true c1 c keeps used = keeps used
InUse-if fd false c1 c keeps used = used

module _ (ops : ℕ → VnodeOps) (v : Vfs) (fd : ℕ) (c : Client) where
  install-Keeps :
      (r : Request) (i pos : ℕ) (f : Superblock → Vnode → ℕ × Option Cookie) (found : Option Vnode)
      → Keeps fd c (install ops v r i pos f c found)
  unfolding install
  install-Keeps r i pos f none = λ used. used
  install-Keeps r i pos f (some vnode) = set_ofile-some fd i _ c

  pub vfs_open-Keeps :
      (r : Request) (path : List ℕ) → IfReturns (Keeps fd c) (vfs_open ops v r path c)
  unfolding vfs_open open_in
  vfs_open-Keeps r path =
      IfReturns-if (Keeps fd c) (free_fd c.ofile max_fds 0 == max_fds) _ _ (λ used. used)
        (IfReturns-elim (Keeps fd c) (fs_find path v) _ _ (λ used. used)
          (λ super is.
            IfReturns-elim (Keeps fd c) (sb_ops ops v super).open_file _ _ (λ used. used)
              (λ f there.
                IfReturns-map (Keeps fd c) (walk_from ops v super path) _
                  (install-Keeps r (free_fd c.ofile max_fds 0) 0 f))))

  pub vfs_opendir-Keeps :
      (r : Request) (dir : List ℕ) → IfReturns (Keeps fd c) (vfs_opendir ops v r dir c)
  unfolding vfs_opendir opendir_in
  vfs_opendir-Keeps r dir =
      IfReturns-if (Keeps fd c) (free_fd c.ofile max_fds 0 == max_fds) _ _ (λ used. used)
        (IfReturns-elim (Keeps fd c) (fs_find dir v) _ _ (λ used. used)
          (λ super is.
            IfReturns-elim (Keeps fd c) (sb_ops ops v super).opendir _ _ (λ used. used)
              (λ f there.
                IfReturns-map (Keeps fd c)
                  (if same_text dir (v.super super).sb_dir
                    then some (some (v.super super).sb_root)
                    else walk_from ops v super dir)
                  _ (install-Keeps r (free_fd c.ofile max_fds 0) r.old_pos f))))

  pub vfs_closedir-Keeps :
      (i : ℕ) → (i == fd) ≡ false → IfReturns (Keeps fd c) (vfs_closedir ops v i c)
  unfolding vfs_closedir
  vfs_closedir-Keeps i apart = IfReturns-bind (Keeps fd c) (ofile_at i c) _ (λ entry is.
      IfReturns-elim (Keeps fd c) entry _ _ (λ used. used)
        (λ f there.
          IfReturns-if (Keeps fd c) (sb_ops ops v f.o_vnode.v_sb).has_closedir _ _
            (IfReturns-bind (Keeps fd c) f.o_cookie _
              (λ k given. set_ofile-other fd i none c apart))
            (λ used. used)))

  pub vfs_close-Keeps : (i : ℕ) → IfReturns (Keeps fd c) (vfs_close ops v i c)
  unfolding vfs_close
  vfs_close-Keeps i = IfReturns-bind (Keeps fd c) (ofile_at i c) _ (λ entry is.
      IfReturns-elim (Keeps fd c) entry _ _ (λ used. used)
        (λ f there.
          IfReturns-elim (Keeps fd c) (sb_ops ops v f.o_vnode.v_sb).close_file _ _ (λ used. used)
            (λ close op. IfReturns-bind (Keeps fd c) f.o_cookie _ (λ k given.
              InUse-if fd (sb_ops ops v f.o_vnode.v_sb).has_free_cookie _ c
                (set_ofile-some fd i (record f { o_cookie = none }) c)))))

  pub vfs_read-Keeps :
      (i count : ℕ)
      → IfReturns
          (λ (r : Res × List ℕ × Client). InUse fd c → InUse fd r.2)
          (vfs_read ops v i count c)
  unfolding vfs_read
  vfs_read-Keeps i count =
      let P : Res × List ℕ × Client → Type 0 = λ r. InUse fd c → InUse fd r.2 in
      IfReturns-bind P (ofile_at i c) _ (λ entry is.
        IfReturns-elim P entry _ _ (λ used. used)
          (λ f there.
            IfReturns-elim P (sb_ops ops v f.o_vnode.v_sb).read _ _ (λ used. used)
              (λ read op. IfReturns-bind P f.o_cookie _ (λ k given. set_ofile-some fd i _ c))))
