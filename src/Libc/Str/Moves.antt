-- ===== src/Libc/Str/Moves.antt =====
-- What the functions of blt/lib/libc/string.c that move bytes leave in memory.
use os_open_blt.Base.{
  ℕ, zero, suc, ◌+◌, ◌-◌, ◌≤◌, ◌≡◌, ◌⊎◌, refl, ◌&&◌, leb, ltb, if◌then◌else◌, arith, update,
}
use os_open_blt.Libc.Str.{move_up, move_down, memmove, memcpy, memset}

-- Memory where the `n` bytes at `d` are those that `m` has at `s`.
abbrev pub moved : ℕ → ℕ → ℕ → (ℕ → ℕ) → ℕ → ℕ
moved d s n m x = if leb d x && ltb x (d + n) then m (s + (x - d)) else m x

move_up-moved :
    (d s n : ℕ) (m : ℕ → ℕ) (x : ℕ) → (d ≤ s) ⊎ (s + n ≤ d) → move_up d s n m x ≡ moved d s n m x
unfolding move_up update
move_up-moved d s zero m x apart = ground arith
move_up-moved d s (suc n) m x apart =
    ground (arith, move_up-moved (d + 1) (s + 1) n (update m d (m s)) x)

move_down-moved : (d s n : ℕ) (m : ℕ → ℕ) (x : ℕ) → s ≤ d → move_down d s n m x ≡ moved d s n m x
unfolding move_down update
move_down-moved d s zero m x above = ground arith
move_down-moved d s (suc n) m x above =
    ground (arith, move_down-moved d s n (update m (d + n) (m (s + n))) x)

-- `memmove` leaves at `dest` the `n` bytes that were at `src`, and all others as they were, however the
-- two blocks overlap.
pub memmove-moved :
    (dest src n : ℕ) (m : ℕ → ℕ) (x : ℕ) → memmove dest src n m x ≡ moved dest src n m x
unfolding memmove
memmove-moved dest src n m x =
    ground (arith, move_up-moved dest src n m x, move_down-moved dest src n m x)

memcpy-move_up : (d s n : ℕ) (m : ℕ → ℕ) → memcpy d s n m ≡ move_up d s n m
unfolding memcpy move_up
memcpy-move_up d s zero m = refl
memcpy-move_up d s (suc n) m = memcpy-move_up (d + 1) (s + 1) n (update m d (m s))

-- `memcpy` does what `memmove` does, when the destination does not begin inside the source.
pub memcpy-memmove :
    (dst src size : ℕ) (m : ℕ → ℕ) (x : ℕ)
    → (dst ≤ src) ⊎ (src + size ≤ dst)
    → memcpy dst src size m x ≡ memmove dst src size m x
memcpy-memmove dst src size m x apart =
    rw (memcpy-move_up dst src size m, memmove-moved dst src size m x)
      (move_up-moved dst src size m x apart)

-- `memset` makes the `n` bytes at `s` equal to `c` and leaves all others as they were.
pub memset-filled :
    (s c n : ℕ) (m : ℕ → ℕ) (x : ℕ)
    → memset s c n m x ≡ (if leb s x && ltb x (s + n) then c else m x)
unfolding memset update
memset-filled s c zero m x = ground arith
memset-filled s c (suc n) m x = ground (arith, memset-filled (s + 1) c n (update m s c) x)
