-- ===== src/Libc/Str/Strings.antt =====
-- What the functions of blt/lib/libc/string.c do on strings.
use os_open_blt.Base.{
  ℕ, zero, suc, ◌+◌, ◌<◌, ◌≡◌, ◌≢◌, ◌⊎◌, refl, false, ◌&&◌, ltb, ◌==◌, if◌then◌else◌, arith, update,
  List, [], ◌∷◌, length, some, min,
}
use os_open_blt.Libc.Str.{strchr, strncpy}
use os_open_blt.Libc.Str.Moves.{moved}

-- The string at `s` is `xs`: its bytes are not 0, and a 0 follows.
abbrev pub Str : (ℕ → ℕ) → ℕ → List ℕ → Type 0
Str m s [] = m s ≡ 0
Str m s (x ∷ xs) = (m s ≡ x) × (x ≢ 0) × Str m (s + 1) xs

-- Where the first `c` is, if the string is at `s`; 0 if there is none.
abbrev pub position : ℕ → ℕ → List ℕ → ℕ
position c s [] = 0
position c s (x ∷ xs) = if x == c then s else position c (s + 1) xs

-- `strchr` finds the first `c` of the string or returns NULL; as many rounds as the string has bytes, its
-- 0 included, are enough. (It never finds the 0 at the end.)
pub strchr-position :
    (fuel cs c : ℕ) (m : ℕ → ℕ) (xs : List ℕ)
    → Str m cs xs
    → length xs < fuel
    → strchr fuel cs c m ≡ some (position c cs xs)
unfolding strchr
strchr-position zero cs c m xs str enough = absurd (omega arith)
strchr-position (suc fuel) cs c m [] str enough = ground arith
strchr-position (suc fuel) cs c m (x ∷ xs) str enough =
    ground (arith, str, strchr-position fuel (cs + 1) c m xs str.2)

Str-frame :
    (m : ℕ → ℕ) (a v s : ℕ) (xs : List ℕ)
    → (a < s) ⊎ (s + length xs < a)
    → Str m s xs
    → Str (update m a v) s xs
unfolding update
Str-frame m a v s [] out str = ground arith
Str-frame m a v s (x ∷ xs) out str =
    (ground (arith, str), str.1, Str-frame m a v (s + 1) xs (ground arith) str.2)

-- Memory after `strncpy` of a string of `n` bytes.
abbrev pub copied : ℕ → ℕ → ℕ → ℕ → (ℕ → ℕ) → ℕ → ℕ
copied dst src size n m x = if x == dst + n && ltb n size then 0 else moved dst src (min size n) m x

moved-step :
    (d s k : ℕ) (m : ℕ → ℕ) (x : ℕ)
    → (d < s) ⊎ (s + k < d)
    → moved (d + 1) (s + 1) k (update m d (m s)) x ≡ moved d s (suc k) m x
unfolding update
moved-step d s k m x apart = ground arith

copied-step :
    (d s size n : ℕ) (m : ℕ → ℕ) (x : ℕ)
    → (d < s) ⊎ (s + suc n < d)
    → copied (d + 1) (s + 1) size n (update m d (m s)) x ≡ copied d s (suc size) (suc n) m x
copied-step d s size n m x apart =
    let one_more : min (suc size) (suc n) ≡ suc (min size n) = omega arith in
    let end : (x == d + suc n && ltb (suc n) (suc size)) ≡ (x == d + 1 + n && ltb n size) =
      ground arith in
    rw (end, one_more, moved-step d s (min size n) m x (ground arith)) refl

-- `strncpy` copies the string up to `size` bytes and ends it with one 0 if there is room; no other byte
-- changes. The destination lies before the string, or behind its 0.
pub strncpy-copied :
    (dst src size : ℕ) (m : ℕ → ℕ) (xs : List ℕ) (x : ℕ)
    → Str m src xs
    → (dst < src) ⊎ (src + length xs < dst)
    → strncpy dst src size m x ≡ copied dst src size (length xs) m x
unfolding strncpy update
strncpy-copied dst src zero m xs x str apart = ground arith
strncpy-copied dst src (suc size) m [] x str apart = ground arith
strncpy-copied dst src (suc size) m (y ∷ ys) x str apart =
    let there : (m src == 0) ≡ false = ground (arith, str) in
    rw (there, ← copied-step dst src size (length ys) m x apart)
      (strncpy-copied (dst + 1) (src + 1) size (update m dst (m src)) ys x
        (Str-frame m dst (m src) (src + 1) ys (ground arith) str.2) (ground arith))
