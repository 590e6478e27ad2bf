-- ===== src/Libc/Str/Tests.antt =====
-- The theorems on blt/lib/libc/string.c at concrete inputs.
use os_open_blt.Base.{ℕ, ◌≡◌, refl, [], ◌∷◌, arith, update}
use os_open_blt.Libc.Str.{memmove}
use os_open_blt.Libc.Str.Moves.{moved, memmove-moved}
use os_open_blt.Libc.Str.Strings.{Str}

-- The string "ab" is at 16, and again at 32.
abbrev text : ℕ → ℕ
text = update (update (update (update (λ x. 0) 16 97) 17 98) 32 97) 33 98

text-Str : Str text 16 (97 ∷ 98 ∷ [])
unfolding update
text-Str = (refl, ground arith, (refl, ground arith, refl))

memmove-moved_example : memmove 17 16 2 text 18 ≡ moved 17 16 2 text 18
memmove-moved_example = memmove-moved 17 16 2 text 18
