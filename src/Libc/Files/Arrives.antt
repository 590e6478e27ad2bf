-- ===== src/Libc/Files/Arrives.antt =====
-- What `_vfs_read` of blt/lib/libc/vfs.c receives of what blt/srv/vfs/vfs.c sends.
use os_open_blt.Base.{
  take_all, length-drop, take-drop, ℕ, zero, suc, ◌-◌, ◌≤◌, ◌≡◌, refl, sym, ◌∙◌, ap, false, Option,
  some, List, [], ◌∷◌, ◌++◌, ◌==◌, ltb, if◌then◌else◌, length, length-take, take, drop, arith,
  Bool-cases, inl, inr,
}
use mathlib.Core.Option
use mathlib.Core.List.{append-nil}
use os_open_blt.Vfs.Types.{Inode, VnodeOps, Vfs, Ofile, Client}
use os_open_blt.Vfs.Bootfs.Reads.{contents}
use os_open_blt.Vfs.Server.{finished, vfs_read}
use os_open_blt.Vfs.Server.Main.{serve}
use os_open_blt.Vfs.Server.Reading.{IsBootFile, gives, vfs_read-contents}
use os_open_blt.Libc.Files.{
  Message, chunk, Session, chunks, sent, receive_result, receive_bytes, receive_pages, call,
  read_vfs, res_of,
}

page_before :
    (page : List ℕ) (receive : ℕ → Session → Option (List ℕ × Session)) (len len' : ℕ) (xs : List ℕ)
    (s1 s2 : Session)
    → len ≡ len'
    → receive len s1 ≡ some (xs, s2)
    → Option.bind {B = List ℕ × Session} (some (page, s1)) (λ ((p, s) : List ℕ × Session).
      Option.map (λ ((rest, t) : List ℕ × Session). (p ++ rest, t)) (receive len' s))
      ≡ some (page ++ xs, s2)
unfolding Option.bind
page_before page receive len len' xs s1 s2 lens is =
    ap (Option.map (λ ((rest, t) : List ℕ × Session). (page ++ rest, t)))
      (ap (λ n. receive n s1) (sym lens) ∙ is)

module _ (v : Vfs × Client) (e : ℕ) (table : ℕ → Option ℕ) where
  -- The session with messages that wait.
  abbrev pub waits : List Message → Session
  waits messages = record { server = v; messages = messages; errno = e; fd_table = table }

  receive_bytes-chunk :
      (n : ℕ) (xs : List ℕ) (rest : List Message)
      → length xs ≤ n
      → receive_bytes n (waits (chunk xs ∷ rest)) ≡ some (xs, waits rest)
  unfolding receive_bytes
  receive_bytes-chunk n xs rest small = ap (λ ys. some (ys, waits rest)) (take_all n xs small)

  receive_pages-chunks :
      (fuel : ℕ) (xs : List ℕ) (rest : List Message)
      → receive_pages fuel (length xs) (waits (chunks fuel xs ++ rest)) ≡ some (xs, waits rest)
  unfolding receive_pages chunks
  receive_pages-chunks zero xs rest = receive_bytes-chunk (length xs) xs rest (omega arith)
  receive_pages-chunks (suc fuel) xs rest = elim (Bool-cases (ltb 0x1000 (length xs))) [
    | inl large ↦
        let first =
          receive_bytes-chunk 0x1000 (take 0x1000 xs) (chunks fuel (drop 0x1000 xs) ++ rest)
            (omega (arith, length-take 0x1000 xs)) in
        let next = receive_pages-chunks fuel (drop 0x1000 xs) rest in
        rw (large, first)
          (page_before (take 0x1000 xs) (receive_pages fuel) (length (drop 0x1000 xs))
              (length xs - 0x1000) (drop 0x1000 xs) (waits (chunks fuel (drop 0x1000 xs) ++ rest))
              (waits rest) (length-drop 0x1000 xs) next
            ∙ ap (λ ys. some (ys, waits rest)) (take-drop 0x1000 xs))
    | inr small ↦ rw small (receive_bytes-chunk (length xs) xs rest (omega arith))
  ]

-- The bytes that came, and what waits behind them: nothing, but for an answer of no bytes, whose empty message the
-- program does not wait for.
abbrev pub arrived : Vfs → (ℕ → Option ℕ) → List ℕ → Client → ℕ × List ℕ × Session
arrived v table bytes c =
    (length bytes, bytes, waits (v, c) 0 table (if length bytes == 0 then chunk [] ∷ [] else []))

read_vfs-arrived :
    (ops : ℕ → VnodeOps) (v : Vfs) (c c' : Client) (e : ℕ) (table : ℕ → Option ℕ) (fd count : ℕ)
    (bytes : List ℕ)
    → length bytes ≤ count
    → vfs_read ops v fd count c ≡ some (finished 0 (some (length bytes)), bytes, c')
    → read_vfs ops fd count (waits (v, c) e table []) ≡ some (arrived v table bytes c')
unfolding read_vfs call serve sent receive_result res_of finished Option.bind
read_vfs-arrived ops v c c' e table fd count [] small is = rw is refl
read_vfs-arrived ops v c c' e table fd count (x ∷ xs) small is =
    let some_bytes : (length (x ∷ xs) == 0) ≡ false = ground arith in
    let store : List ℕ × Session → ℕ × List ℕ × Session =
      λ ((ys, t) : List ℕ × Session). (length (x ∷ xs), ys, record t { errno = 0 }) in
    elim (Bool-cases (ltb (length (x ∷ xs)) 0x1000)) [
      | inl short ↦
          rw (is, some_bytes, short)
            (ap (Option.map store) (receive_bytes-chunk (v, c') e table count (x ∷ xs) [] small))
      | inr long ↦
          rw (is, some_bytes, long)
            (ap
                (λ m.
                  Option.map store
                    (receive_pages (length (x ∷ xs)) (length (x ∷ xs)) (waits (v, c') e table m)))
                (sym (append-nil (chunks (length (x ∷ xs)) (x ∷ xs))))
              ∙ ap (Option.map store)
                  (receive_pages-chunks (v, c') e table (length (x ∷ xs)) (x ∷ xs) []))
    ]

-- With no message waiting, `_vfs_read` of a descriptor for a file of the boot file system returns the number of the
-- bytes of the file from the descriptor's position on, as many as are asked for and there are, and stores these
-- bytes, in however many messages they are sent; no message waits after it, but for an empty one where there was
-- no byte.
pub read_vfs-contents :
    (ops : ℕ → VnodeOps) (v : Vfs) (c : Client) (e : ℕ) (table : ℕ → Option ℕ) (fd count : ℕ)
    (f : Ofile) (inode : Inode)
    → IsBootFile ops v fd f inode c
    → let bytes = take count (drop f.o_pos (contents (v.super f.o_vnode.v_sb) inode)) in
      read_vfs ops fd count (waits (v, c) e table [])
      ≡ some (arrived v table bytes (gives fd f c bytes).2)
read_vfs-contents ops v c e table fd count f inode ok =
    let bytes = take count (drop f.o_pos (contents (v.super f.o_vnode.v_sb) inode)) in
    read_vfs-arrived ops v c (gives fd f c bytes).2 e table fd count bytes
      (omega (arith, length-take count (drop f.o_pos (contents (v.super f.o_vnode.v_sb) inode))))
      (vfs_read-contents ops v fd count f inode c ok)
