-- ===== src/Vfs/Bootfs/Reads.antt =====
-- `bootfs_read` of blt/srv/vfs/bootfs.c against the bytes of the file.
use os_open_blt.Base.{
  ℕ, zero, suc, ◌+◌, ◌-◌, ◌*◌, ◌≡◌, refl, sym, ◌∙◌, ap, List, [], ◌∷◌, ◌++◌, leb, if◌then◌else◌,
  length, take, drop, min, arith, Bool-cases, inl, inr,
}
use os_open_blt.Vfs.Types.{Inode, Superblock}
use os_open_blt.Vfs.Bootfs.{bytes_at, read_inode}

-- All the bytes of a file.
unfoldable pub contents : Superblock → Inode → List ℕ
contents sb inode = bytes_at sb.sb_bootdir (inode.i_offset * 0x1000) inode.i_size

length-bytes_at : (m : ℕ → ℕ) (a n : ℕ) → length (bytes_at m a n) ≡ n
unfolding bytes_at
length-bytes_at m a zero = refl
length-bytes_at m a (suc n) = ap suc (length-bytes_at m (a + 1) n)

same_bytes : (m : ℕ → ℕ) (a b n k : ℕ) → a ≡ b → n ≡ k → bytes_at m a n ≡ bytes_at m b k
same_bytes m a b n k at long = rw (at, long)

no_bytes : (m : ℕ → ℕ) (a n : ℕ) → n ≡ 0 → bytes_at m a n ≡ []
unfolding bytes_at
no_bytes m a n is = rw is refl

bytes_at-append :
    (m : ℕ → ℕ) (a n k : ℕ) → bytes_at m a (n + k) ≡ bytes_at m a n ++ bytes_at m (a + n) k
unfolding bytes_at
bytes_at-append m a zero k = same_bytes m a (a + 0) (0 + k) k (omega arith) (omega arith)
bytes_at-append m a (suc n) k =
    same_bytes m a a (suc n + k) (suc (n + k)) refl (omega arith)
    ∙ ap (λ xs. m a ∷ xs)
        (bytes_at-append m (a + 1) n k
          ∙ ap (λ xs. bytes_at m (a + 1) n ++ xs)
              (same_bytes m (a + 1 + n) (a + suc n) k k (omega arith) refl))

drop-bytes_at : (m : ℕ → ℕ) (k a n : ℕ) → drop k (bytes_at m a n) ≡ bytes_at m (a + k) (n - k)
unfolding bytes_at
drop-bytes_at m zero a n = same_bytes m a (a + 0) n (n - 0) (omega arith) (omega arith)
drop-bytes_at m (suc k) a zero = sym (no_bytes m (a + suc k) (0 - suc k) (omega arith))
drop-bytes_at m (suc k) a (suc n) =
    drop-bytes_at m k (a + 1) n
    ∙ same_bytes m (a + 1 + k) (a + suc k) (n - k) (suc n - suc k) (omega arith) (omega arith)

take-bytes_at : (m : ℕ → ℕ) (k a n : ℕ) → take k (bytes_at m a n) ≡ bytes_at m a (min k n)
unfolding bytes_at
take-bytes_at m zero a n = sym (no_bytes m a (min 0 n) (omega arith))
take-bytes_at m (suc k) a zero = sym (no_bytes m a (min (suc k) 0) (omega arith))
take-bytes_at m (suc k) a (suc n) =
    ap (λ xs. m a ∷ xs) (take-bytes_at m k (a + 1) n)
    ∙ same_bytes m a a (suc (min k n)) (min (suc k) (suc n)) refl (omega arith)

-- As many bytes as are asked for and left.
read_inode-bytes_at :
    (sb : Superblock) (inode : Inode) (n offset : ℕ)
    → read_inode sb inode n offset
      ≡ bytes_at sb.sb_bootdir (inode.i_offset * 0x1000 + offset) (min n (inode.i_size - offset))
unfolding read_inode
read_inode-bytes_at sb inode n offset =
    let m = sb.sb_bootdir in
    let at = inode.i_offset * 0x1000 + offset in
    elim (Bool-cases (leb inode.i_size offset)) [
      | inl past ↦
          rw past (sym (no_bytes m at (min n (inode.i_size - offset)) (ground (arith, past))))
      | inr before ↦ rw before (
          same_bytes m at at (if leb n (inode.i_size - offset) then n else inode.i_size - offset)
            (min n (inode.i_size - offset)) refl (ground arith))
    ]

-- `bootfs_read` copies the bytes of the file from the offset on, as many as are asked for and there are.
pub read_inode-contents :
    (sb : Superblock) (inode : Inode) (n offset : ℕ)
    → read_inode sb inode n offset ≡ take n (drop offset (contents sb inode))
unfolding contents
read_inode-contents sb inode n offset =
    let m = sb.sb_bootdir in
    rw
      (
        drop-bytes_at m offset (inode.i_offset * 0x1000) inode.i_size,
        take-bytes_at m n (inode.i_offset * 0x1000 + offset) (inode.i_size - offset),
      )
      (read_inode-bytes_at sb inode n offset)

-- Two reads, the second where the first ended, copy what one read of both counts does.
pub read_inode-append :
    (sb : Superblock) (inode : Inode) (n k offset : ℕ)
    → read_inode sb inode (n + k) offset
      ≡ read_inode sb inode n offset
        ++ read_inode sb inode k (offset + length (read_inode sb inode n offset))
read_inode-append sb inode n k offset =
    let m = sb.sb_bootdir in
    let at = inode.i_offset * 0x1000 + offset in
    let left = inode.i_size - offset in
    let first = length-bytes_at m at (min n left) in
    rw
      (
        read_inode-bytes_at sb inode n offset,
        first,
        read_inode-bytes_at sb inode (n + k) offset,
        read_inode-bytes_at sb inode k (offset + min n left),
      )
      (same_bytes m at at (min (n + k) left)
          (min n left + min k (inode.i_size - (offset + min n left))) refl (omega arith)
        ∙ bytes_at-append m at (min n left) (min k (inode.i_size - (offset + min n left)))
        ∙ ap (λ xs. bytes_at m at (min n left) ++ xs)
            (same_bytes m (at + min n left) (inode.i_offset * 0x1000 + (offset + min n left)) _ _
              (omega arith) refl))
