-- ===== src/Libc/Files.antt =====
-- The files and directories of a program: blt/lib/libc/vfs.c and fdl.c, with the server's turns in between. Only
-- the handler "vfs" is in the table. An area that the program shares with the server is what the server last
-- wrote there. A result of none is where the source goes through a null pointer, uses a word that was not
-- stored, or takes one kind of message for the other.
pub mod Arrives
pub mod Listed
pub mod Tests
use os_open_blt.Base.{
  ℕ, zero, suc, ◌+◌, ◌-◌, ◌/◌, Bool, true, false, Option, none, some, List, [], ◌∷◌, ◌++◌, ◌==◌,
  ltb, if◌then◌else◌, length, take, drop, map, update,
}
use mathlib.Core.Option
use os_open_blt.Vfs.Types.{Dirent, Stat, VnodeOps, Vfs, Client, Res}
use os_open_blt.Vfs.Server.{vfs_ok, ebadf, max_fds, Request, ◌>>=◌}
use os_open_blt.Vfs.Server.Main.{Command, Reply, serve}

-- A message to the program's port.
pub data Message : Type 0 where
  result : Reply → Message
  chunk : List ℕ → Message

-- The server, with its record of the program, the messages that wait for the program, `errno` and `fd_table`, which
-- has the server's descriptor for each of the program's.
pub record Session : Type 0 where
  pub server : Vfs × Client
  pub messages : List Message
  pub errno : ℕ
  pub fd_table : ℕ → Option ℕ

-- The bytes in messages of a page at most.
unfoldable pub chunks : ℕ → List ℕ → List Message
chunks zero data' = chunk data' ∷ []
chunks (suc fuel) data' =
    let rest = chunks fuel (drop 0x1000 data') in
    if ltb 0x1000 (length data') then chunk (take 0x1000 data') ∷ rest else chunk data' ∷ []

-- The messages that the server sends for a reply. There is a buffer of bytes, even of none, where `vfs_read` came
-- to store its number.
unfoldable pub sent : Reply → List Message
sent (Reply.answer res) = result (Reply.answer res) ∷ []
sent (Reply.listing res n dirents) = result (Reply.listing res n dirents) ∷ []
sent (Reply.contents res data') = result (Reply.answer res) ∷ (elim res.first [
  | none ↦ []
  | some len ↦ if ltb (length data') 0x1000 then chunk data' ∷ [] else chunks (length data') data'
])
sent (Reply.found res stat) = result (Reply.found res stat) ∷ []

unfoldable pub res_of : Reply → Res
res_of (Reply.answer res) = res
res_of (Reply.listing res n dirents) = res
res_of (Reply.contents res data') = res
res_of (Reply.found res stat) = res

-- `port_recv` of a result, and of bytes into a buffer of a size.
pub receive_result : Session → Option (Reply × Session)
receive_result s = elim s.messages [
  | [] ↦ none
  | result r ∷ rest ↦ some (r, record s { messages = rest })
  | chunk data' ∷ rest ↦ none
]

pub receive_bytes : ℕ → Session → Option (List ℕ × Session)
receive_bytes size s = elim s.messages [
  | [] ↦ none
  | result r ∷ rest ↦ none
  | chunk data' ∷ rest ↦ some (take size data', record s { messages = rest })
]

-- The loop of `_vfs_read` over the pages of an answer of `len` bytes.
pub receive_pages : ℕ → ℕ → Session → Option (List ℕ × Session)
receive_pages zero len s = receive_bytes len s
receive_pages (suc fuel) len s =
    let more = Option.bind (receive_bytes 0x1000 s) (λ ((page, s1) : List ℕ × Session).
      Option.map (λ ((rest, s2) : List ℕ × Session). (page ++ rest, s2))
        (receive_pages fuel (len - 0x1000) s1)) in
    if ltb 0x1000 len then more else receive_bytes len s

-- The first free place of the table, of `n` from `i` on.
unfoldable pub free_place : (ℕ → Option ℕ) → ℕ → ℕ → Option ℕ
free_place table zero i = none
free_place table (suc n) i = elim (table i) [ none ↦ some i | some fd ↦ free_place table n (i + 1) ]

-- `_fdl_alloc_descriptor`; none is -1.
unfoldable pub alloc_descriptor : ℕ → Session → Option ℕ × Session
alloc_descriptor srv_fd s = elim (free_place s.fd_table max_fds 0) [
  | none ↦ (none, s)
  | some i ↦ (some i, record s { fd_table = update s.fd_table i (some srv_fd) })
]

pub free_descriptor : ℕ → Session → Session
free_descriptor desc s = record s { fd_table = update s.fd_table desc none }

-- `DIR`: `entries` are those of the area from `current` on. Below 0 `left` does what 0 does.
pub record Dir : Type 0 where
  pub fd : ℕ
  pub entries : List Dirent
  pub left : ℕ

-- A call of `_readdir`, whose result is none at the end.
pub readdir : Dir → Option (Option Dirent × Dir)
readdir d = if d.left == 0 then some (none, d) else elim d.entries [
  | [] ↦ none
  | entry ∷ rest ↦ some (some entry, record d { entries = rest; left = d.left - 1 })
]

-- What fits in the server's view of a name: `strlcpy` to `nameptr`.
pub named : List ℕ → List ℕ
named path = take 31 path

-- How many entries of 40 bytes the area of a directory has space for.
abbrev dir_space : ℕ
dir_space = 0x2000 / 40

pub opened_dir : Reply → Session → Option (Option Dir × Session)
opened_dir (Reply.listing res n dirents) s = do
  fd ← res.first
  some (some (record { fd = fd; entries = dirents; left = n }), s)
opened_dir (Reply.answer res) s = some (none, record s { errno = res.errno })
opened_dir (Reply.contents res data') s = none
opened_dir (Reply.found res stat) s = none

module _ (ops : ℕ → VnodeOps) where
  -- A request, the turn of the server that it gives, and the result that is received.
  pub call : Command → Session → Option (Reply × Session)
  call cmd s = do
    (reply, v, c) ← serve ops cmd s.server
    receive_result (record s { server = (v, c); messages = s.messages ++ sent reply })

  -- `area` is what `area_create` gives, and `old_pos` what the server's new memory holds.
  pub opendir : ℕ → ℕ → List ℕ → Session → Option (Option Dir × Session)
  opendir area old_pos name s = do
    let r : Request = record { r_area = area; r_offset = 0; r_length = 0x2000; old_pos = old_pos }
    (reply, s') ← call (Command.vfs_opendir_cmd r dir_space (named name)) s
    opened_dir reply s'

  -- 0, or 1 for a failure of the server; none is -1.
  pub closedir : Option Dir → Session → Option (Option ℕ × Session)
  closedir none s = some (none, record s { errno = ebadf })
  closedir (some d) s = do
    (reply, s') ← call (Command.vfs_closedir_cmd d.fd) s
    let res = res_of reply
    some (some (if res.status == vfs_ok then 0 else 1), record s' { errno = res.errno })

  -- The descriptor, or none for -1.
  pub open_path : ℕ → ℕ → List ℕ → Session → Option (Option ℕ × Session)
  open_path area old_pos path s = do
    let r : Request = record { r_area = area; r_offset = 0; r_length = 0x2000; old_pos = old_pos }
    (reply, s') ← call (Command.vfs_open_cmd r (named path)) s
    let res = res_of reply
    (if res.status == vfs_ok
        then Option.map (λ fd. alloc_descriptor fd s') res.first
        else some (none, record s' { errno = res.errno }))

  -- `_vfs_close`, false for -1.
  pub close_vfs : ℕ → Session → Option (Bool × Session)
  close_vfs srv_fd s = do
    (reply, s') ← call (Command.vfs_close_cmd srv_fd) s
    let res = res_of reply
    some (if res.status == vfs_ok then (true, s') else (false, record s' { errno = res.errno }))

  -- `_vfs_read`: the bytes that are returned and that are stored.
  pub read_vfs : ℕ → ℕ → Session → Option (ℕ × List ℕ × Session)
  read_vfs srv_fd count s = do
    (reply, s') ← call (Command.vfs_read_cmd srv_fd count) s
    let res = res_of reply
    len ← res.first
    let small =
        Option.map (λ ((bytes, t) : List ℕ × Session). (len, bytes, record t { errno = res.errno }))
          (receive_bytes count s')
    let large =
        Option.map (λ ((bytes, t) : List ℕ × Session). (len, bytes, record t { errno = res.errno }))
          (receive_pages len len s')
    (if len == 0
        then some (0, [], record s' { errno = 0 })
        else (if ltb len 0x1000 then small else large))

  -- `_read` and `_close`, through the table.
  pub read : ℕ → ℕ → Session → Option (ℕ × List ℕ × Session)
  read fd count s = Option.bind (s.fd_table fd) (λ srv_fd. read_vfs srv_fd count s)

  pub close : ℕ → Session → Option (Bool × Session)
  close fd s = do
    srv_fd ← s.fd_table fd
    (ok, s') ← close_vfs srv_fd s
    some (ok, free_descriptor fd s')

  -- The stat, or none for -1.
  pub stat : List ℕ → Session → Option (Option Stat × Session)
  stat path s = do
    (reply, s') ← call (Command.vfs_rstat_cmd (named path)) s
    elim reply [
      | Reply.answer res ↦ none
      | Reply.listing res n dirents ↦ none
      | Reply.contents res bytes ↦ none
      | Reply.found res buf ↦
          if res.status == vfs_ok
          then Option.map (λ st. (some st, s')) buf
          else some (none, record s' { errno = res.errno })
    ]

  pub mkdir : List ℕ → Session → Option (Bool × Session)
  mkdir path s = do
    (reply, s') ← call (Command.vfs_mkdir_cmd (named path)) s
    let res = res_of reply
    some (if res.status == vfs_ok then (true, s') else (false, record s' { errno = res.errno }))
