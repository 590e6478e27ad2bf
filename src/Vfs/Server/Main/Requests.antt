-- ===== src/Vfs/Server/Main/Requests.antt =====
-- A client's descriptors over any sequence of requests to the server, blt/srv/vfs/vfs.c.
use os_open_blt.Base.{
  ℕ, ◌≡◌, Bool, false, some, List, [], ◌∷◌, ◌==◌, IfReturns, IfReturns-bind, IfReturns-some,
  IfReturns-then, IfReturns-if,
}
use os_open_blt.Vfs.Types.{VnodeOps, Vfs, Client, Res}
use os_open_blt.Vfs.Server.{
  vfs_ok, ofile_at, vfs_mkdir, vfs_opendir, vfs_closedir, vfs_open, vfs_close, vfs_read, vfs_rstat,
}
use os_open_blt.Vfs.Server.Listing.{shm_write_dir}
use os_open_blt.Vfs.Server.Main.{Command, Reply, list_opened, serve}
use os_open_blt.Vfs.Server.Keeps.{
  InUse, set_ofile-some, vfs_open-Keeps, vfs_opendir-Keeps, vfs_closedir-Keeps, vfs_close-Keeps,
  vfs_read-Keeps,
}

-- The request is `vfs_closedir` of a descriptor.
unfoldable pub closes : ℕ → Command → Bool
closes fd (Command.vfs_closedir_cmd i) = i == fd
closes fd (Command.vfs_opendir_cmd r space dir) = false
closes fd (Command.vfs_open_cmd r path) = false
closes fd (Command.vfs_close_cmd i) = false
closes fd (Command.vfs_read_cmd i count) = false
closes fd (Command.vfs_rstat_cmd path) = false
closes fd (Command.vfs_mkdir_cmd dir) = false

module _ (ops : ℕ → VnodeOps) (fd : ℕ) where
  list_opened-InUse :
      (v : Vfs) (space : ℕ) (opened : Res × Client)
      → InUse fd opened.1
      → IfReturns (λ (r : Reply × Client). InUse fd r.1) (list_opened ops v space opened)
  unfolding list_opened
  list_opened-InUse v space (res, c) used =
      let P : Reply × Client → Type 0 = λ r. InUse fd r.1 in
      IfReturns-if P (res.status == vfs_ok) _ _
        (IfReturns-bind P res.first _ (λ i is. IfReturns-bind P (ofile_at i c) _ (λ entry there.
          IfReturns-bind P entry _ (λ f given.
            IfReturns-bind P (shm_write_dir ops v f 0 space) _
              (λ written eq. set_ofile-some fd i _ c used)))))
        used

  -- One request.
  serve-InUse :
      (cmd : Command) (v : Vfs) (c : Client)
      → closes fd cmd ≡ false
      → InUse fd c
      → IfReturns (λ (r : Reply × Vfs × Client). InUse fd r.2) (serve ops cmd (v, c))
  unfolding serve closes
  serve-InUse (Command.vfs_closedir_cmd i) v c other used =
      IfReturns-then (λ (r : Reply × Vfs × Client). InUse fd r.2) (vfs_closedir ops v i c) _
        (vfs_closedir-Keeps ops v fd c i other) (λ answer keeps. keeps used)
  serve-InUse (Command.vfs_opendir_cmd r space dir) v c other used =
      let P : Reply × Vfs × Client → Type 0 = λ r. InUse fd r.2 in
      IfReturns-then P (vfs_opendir ops v r dir c) _ (vfs_opendir-Keeps ops v fd c r dir)
        (λ opened keeps.
          IfReturns-then P (list_opened ops v space opened) _
            (list_opened-InUse v space opened (keeps used)) (λ listed still. still))
  serve-InUse (Command.vfs_open_cmd r path) v c other used =
      IfReturns-then (λ (r : Reply × Vfs × Client). InUse fd r.2) (vfs_open ops v r path c) _
        (vfs_open-Keeps ops v fd c r path) (λ answer keeps. keeps used)
  serve-InUse (Command.vfs_close_cmd i) v c other used =
      IfReturns-then (λ (r : Reply × Vfs × Client). InUse fd r.2) (vfs_close ops v i c) _
        (vfs_close-Keeps ops v fd c i) (λ answer keeps. keeps used)
  serve-InUse (Command.vfs_read_cmd i count) v c other used =
      IfReturns-then (λ (r : Reply × Vfs × Client). InUse fd r.2) (vfs_read ops v i count c) _
        (vfs_read-Keeps ops v fd c i count) (λ answer keeps. keeps used)
  serve-InUse (Command.vfs_rstat_cmd path) v c other used =
      IfReturns-bind (λ (r : Reply × Vfs × Client). InUse fd r.2) (vfs_rstat ops v path) _
        (λ answer is. used)
  serve-InUse (Command.vfs_mkdir_cmd dir) v c other used =
      IfReturns-bind (λ (r : Reply × Vfs × Client). InUse fd r.2) (vfs_mkdir ops dir v) _
        (λ answer is. used)

-- The server's and a client's states before and after some requests of the client, each of which is answered.
pub data Served (ops : ℕ → VnodeOps) : List Command → Vfs × Client → Vfs × Client → Type 0 where
  done : (s : Vfs × Client) → Served ops [] s s
  step :
      (cmd : Command) (cmds : List Command) (reply : Reply) (s s1 s2 : Vfs × Client)
      → serve ops cmd s ≡ some (reply, s1.0, s1.1)
      → Served ops cmds s1 s2
      → Served ops (cmd ∷ cmds) s s2

-- No request is `vfs_closedir` of a descriptor.
abbrev pub NoneCloses : ℕ → List Command → Type 0
NoneCloses fd [] = Unit {0}
NoneCloses fd (cmd ∷ cmds) = (closes fd cmd ≡ false) × NoneCloses fd cmds

-- A descriptor of the client that is in use stays in use over any requests but `vfs_closedir` of it.
pub Served-InUse :
    (ops : ℕ → VnodeOps) (fd : ℕ) (cmds : List Command) (s s1 : Vfs × Client)
    → NoneCloses fd cmds
    → Served ops cmds s s1
    → InUse fd s.1
    → InUse fd s1.1
Served-InUse ops fd [] s s1 others (Served.done _) used = used
Served-InUse ops fd (cmd ∷ cmds) s s1 (other, others) (Served.step _ _ reply _ s2 _ is rest) used =
    Served-InUse ops fd cmds s2 s1 others rest (
      IfReturns-some (λ (r : Reply × Vfs × Client). InUse fd r.2) (serve ops cmd s)
        (reply, s2.0, s2.1) is (serve-InUse ops fd cmd s.0 s.1 other used))
