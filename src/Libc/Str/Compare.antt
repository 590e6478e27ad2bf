-- ===== src/Libc/Str/Compare.antt =====
-- What the comparisons of blt/lib/libc/string.c tell.
use os_open_blt.Base.{
  ℕ, zero, suc, ◌+◌, ◌≡◌, refl, true, Bool, ◌&&◌, ◌==◌, not, if◌then◌else◌, arith,
}
use os_open_blt.Base.Int.{pos, negsuc}
use os_open_blt.Libc.Str.{memcmp, strncmp}

-- The `n` bytes at `a` and at `b` are the same.
abbrev pub same_bytes : ℕ → ℕ → ℕ → (ℕ → ℕ) → Bool
same_bytes a b zero m = true
same_bytes a b (suc n) m = (m a == m b) && same_bytes (a + 1) (b + 1) n m

-- There is no 0 among the `n` bytes at `a`.
abbrev pub no_end : ℕ → ℕ → (ℕ → ℕ) → Bool
no_end a zero m = true
no_end a (suc n) m = not (m a == 0) && no_end (a + 1) n m

-- `memcmp` returns 0 when all bytes are the same, and 1 when they are not.
pub memcmp-same_bytes :
    (dst src size : ℕ) (m : ℕ → ℕ)
    → memcmp dst src size m ≡ (if same_bytes dst src size m then pos 0 else pos 1)
unfolding memcmp
memcmp-same_bytes dst src zero m = refl
memcmp-same_bytes dst src (suc size) m =
    ground (arith, memcmp-same_bytes (dst + 1) (src + 1) size m)

-- `strncmp` returns 0 only when the first `n` bytes are the same and no 0 is among them, and -1 for
-- all other strings, equal strings of fewer than `n` bytes included.
pub strncmp-same_bytes :
    (s1 s2 n : ℕ) (m : ℕ → ℕ)
    → strncmp s1 s2 n m ≡ (if same_bytes s1 s2 n m && no_end s1 n m then pos 0 else negsuc 0)
unfolding strncmp
strncmp-same_bytes s1 s2 zero m = refl
strncmp-same_bytes s1 s2 (suc n) m = ground (arith, strncmp-same_bytes (s1 + 1) (s2 + 1) n m)
