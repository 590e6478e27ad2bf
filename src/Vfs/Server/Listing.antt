-- ===== src/Vfs/Server/Listing.antt =====
-- blt/srv/vfs/shm.c, which writes a directory into the area of the client that opened it.
use os_open_blt.Base.{
  ℕ, zero, suc, ◌+◌, ◌-◌, ◌<◌, ◌≤◌, ◌≡◌, refl, ap, Option, some, List, [], ◌∷◌, ◌==◌, if◌then◌else◌,
  length, take, map, arith, Returns,
}
use mathlib.Core.Option
use os_open_blt.Vfs.Types.{Dirent, Cookie, u_dir, VnodeOps, Vfs, Ofile}
use os_open_blt.Vfs.Rootfs.{fs_readdir, fs_rewinddir}
use os_open_blt.Vfs.Server.{sb_ops, ◌>>=◌}

-- The loop that passes over the first entries.
pub skip_entries : (Cookie → ℕ × Dirent × Cookie) → ℕ → Cookie → Cookie
skip_entries readdir zero k = k
skip_entries readdir (suc skip) k = skip_entries readdir skip (readdir k).2

-- The loop that writes entries, with space for `n` more of them: how often it ran, and what it wrote.
pub write_entries : (Cookie → ℕ × Dirent × Cookie) → ℕ → Cookie → ℕ × List Dirent × Cookie
write_entries readdir zero k = (0, [], k)
write_entries readdir (suc n) k =
    let (res, dirent, k') = readdir k in
    let (i, dirents, k'') = write_entries readdir n k' in
    if res == 0 then (i + 1, dirent ∷ dirents, k'') else (1, [], k')

-- `space` is `len / sizeof (struct dirent)`. The result is `*numents`, the entries that were written from
-- `doff` on, and the open file.
pub shm_write_dir : (ℕ → VnodeOps) → Vfs → Ofile → ℕ → ℕ → Option (ℕ × List Dirent × Ofile)
shm_write_dir ops v ofile skip space = do
  k ← ofile.o_cookie
  let o = sb_ops ops v ofile.o_vnode.v_sb
  let (i, dirents, k') = write_entries o.readdir space (skip_entries o.readdir skip (o.rewinddir k))
  some (if i == 0 then 0 else i - 1, dirents, record ofile { o_cookie = some k' })

-- What `readdir` gives for an entry.
pub cut : Dirent → Dirent
cut d = record d { d_name = take 32 d.d_name }

write_entries-take :
    (head rest : List Dirent) (n : ℕ)
    → (let (i, dirents, k) = write_entries fs_readdir n (u_dir head rest) in
        (dirents ≡ map cut (take n rest))
        × (length rest < n → i ≡ length rest + 1)
        × (n ≤ length rest → i ≡ n))
unfolding write_entries cut fs_readdir
write_entries-take head rest zero = (refl, (λ h. omega (arith, h)), λ h. refl)
write_entries-take head [] (suc n) = (refl, (λ h. refl), λ h. omega (arith, h))
write_entries-take head (d ∷ rest) (suc n) =
    let (written, ends, fits) = write_entries-take head rest n in
    (
      ap (λ ds. cut d ∷ ds) written,
      (λ h. omega (arith, ends (omega (arith, h)))),
      λ h. omega (arith, fits (omega (arith, h))),
    )

-- For an open directory whose operations are those of the two file systems, `shm_write_dir` writes the entries
-- from the first on, as many as there is space for. It counts all of them if there is space for one more, and
-- one less than it wrote if there is not.
pub shm_write_dir-entries :
    (ops : ℕ → VnodeOps) (v : Vfs) (f : Ofile) (space : ℕ) (head current : List Dirent)
    → (sb_ops ops v f.o_vnode.v_sb).readdir ≡ fs_readdir
    → (sb_ops ops v f.o_vnode.v_sb).rewinddir ≡ fs_rewinddir
    → f.o_cookie ≡ some (u_dir head current)
    → Returns
        (λ ((numents, dirents, f') : ℕ × List Dirent × Ofile).
          (dirents ≡ map cut (take space head))
          × (length head < space → numents ≡ length head)
          × (space ≤ length head → numents ≡ space - 1))
        (shm_write_dir ops v f 0 space)
unfolding shm_write_dir Option.bind skip_entries fs_rewinddir
shm_write_dir-entries ops v f space head current reads rewinds is =
    let (written, ends, fits) = write_entries-take head head space in
    rw (shm_write_dir, is, reads, rewinds)
      (written, λ h. ground (arith, ends h), λ h. ground (arith, fits h, h))
