-- ===== src/Libc/Snprintf/Tests.antt =====
-- Formats, and the theorems on them.
use os_open_blt.Base.{true, ◌≤◌, ◌≡◌, refl, some, List, [], ◌∷◌, ◌++◌, length, arith, Returns, ◌+◌}
use os_open_blt.Libc.Snprintf.{word, pull_word, digits, va_snprintf}
use os_open_blt.Libc.Snprintf.Digits.{value, are_digits, Leads, digits-decimal}
use os_open_blt.Libc.Snprintf.Ends.{va_snprintf-bounded}
use os_open_blt.Libc.Snprintf.Whole.{
  Piece, literal, signed_arg, string_arg, all_formats, all_args, all_shown, all_cost, cost, shown,
  va_snprintf-whole,
}

digits-decimal_example :
    (value 0 (digits 10 4096 []) ≡ 4096)
    × (are_digits (digits 10 4096 []) ≡ true)
    × Leads 4096 (digits 10 4096 [])
digits-decimal_example = digits-decimal 4096 (omega arith)

-- "ab%d" with -5.
va_snprintf-bounded_example :
    Returns
      (λ out. length out ≤ 4 + 1)
      (va_snprintf 4 (b'a' ∷ b'b' ∷ b'%' ∷ b'd' ∷ []) (word 0xfffffffb ∷ []))
unfolding pull_word
va_snprintf-bounded_example =
    va_snprintf-bounded 4 (b'a' ∷ b'b' ∷ b'%' ∷ b'd' ∷ []) (word 0xfffffffb ∷ []) refl

abbrev pieces : List Piece
pieces = literal b'a' ∷ signed_arg 0xfffffffb ∷ string_arg (b'x' ∷ b'y' ∷ []) ∷ []

va_snprintf-whole_example :
    va_snprintf 20 (all_formats pieces) (all_args pieces) ≡ some (all_shown pieces ++ 0 ∷ [])
unfolding all_cost cost shown digits
va_snprintf-whole_example = va_snprintf-whole pieces 20 (refl, (tt, (tt, tt))) (omega arith)
