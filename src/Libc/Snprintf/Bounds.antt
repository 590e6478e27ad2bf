-- ===== src/Libc/Snprintf/Bounds.antt =====
-- How much blt/lib/libc/snprintf.c writes.
use os_open_blt.Base.{
  ℕ, zero, suc, ◌+◌, ◌-◌, ◌/◌, ◌%◌, ◌≤◌, ◌≡◌, Bool, true, false, some, List, [], ◌∷◌, ◌++◌, ◌==◌,
  ltb, ◌||◌, if◌then◌else◌, length, length-append, arith, Bool-cases, inl, inr, IfReturns,
  IfReturns-test, ◌∙◌, IfReturns-map, IfReturns-then, IfReturns-mapped, IfReturns-if,
}
use mathlib.Core.Option
use os_open_blt.Libc.Snprintf.{
  Arg, Printer, pull_text, pull_word, pull_long, next_text, next_word, next_long, hexmap,
  hex_digits, digits, put_text, put_digits, put_block, print_char, print_hex, print_short,
  print_unsigned, print_signed, last_four, directive, lengthen, print_loop, va_snprintf,
}

-- What is written and what may be written are `n` bytes at most together.
abbrev Fits : ℕ → Printer → Type 0
Fits n p = length p.written + p.l ≤ n

-- The same within a directive, for which a byte is set aside and `k` may be written.
abbrev Room : ℕ → ℕ → Printer → Type 0
Room n k p = (length p.written + p.l + 1 ≤ n) × (k ≤ p.l)

module _ (n : ℕ) where
  put_text-Fits : (t : List ℕ) (p : Printer) → Fits n p → Fits n (put_text t p)
  unfolding put_text
  put_text-Fits [] p fits = fits
  put_text-Fits (x ∷ t) p fits = elim (Bool-cases (p.l == 0)) [
    | inl full ↦ rw full fits
    | inr free ↦ rw free (
        put_text-Fits t (record p { written = p.written ++ x ∷ []; l = p.l - 1 })
          (ground (arith, fits, free, length-append p.written (x ∷ []))))
  ]

  put_digits-Fits : (ds : List ℕ) (p : Printer) → Fits n p → 1 ≤ p.l → Fits n (put_digits ds p)
  unfolding put_digits
  put_digits-Fits [] p fits room = fits
  put_digits-Fits (x ∷ ds) p fits room =
      let p' : Printer = record p { written = p.written ++ x ∷ []; l = p.l - 1 } in
      let fits' : Fits n p' = ground (arith, fits, room, length-append p.written (x ∷ [])) in
      elim (Bool-cases (p.l - 1 == 0)) [
        | inl full ↦ rw full fits'
        | inr free ↦ rw free (put_digits-Fits ds p' fits' (ground (arith, free)))
      ]

  next_text-Room :
      (k : ℕ) (p : Printer)
      → Room n k p
      → IfReturns (λ ((x, p') : List ℕ × Printer). Room n k p') (next_text p)
  unfolding next_text
  next_text-Room k p room = IfReturns-map _ (pull_text p.pvar) _ (λ x. room)

  next_word-Room :
      (k : ℕ) (p : Printer)
      → Room n k p
      → IfReturns (λ ((x, p') : ℕ × Printer). Room n k p') (next_word p)
  unfolding next_word
  next_word-Room k p room = IfReturns-map _ (pull_word p.pvar) _ (λ x. room)

  next_long-Room :
      (k : ℕ) (p : Printer)
      → Room n k p
      → IfReturns (λ ((x, p') : ℕ × Printer). Room n k p') (next_long p)
  unfolding next_long
  next_long-Room k p room = IfReturns-map _ (pull_long p.pvar) _ (λ x. room)

  words-Fits :
      (k : ℕ) (f : ℕ → Printer → Printer) (p : Printer)
      → ((u : ℕ) (p' : Printer) → Room n k p' → Fits n (f u p'))
      → Room n k p
      → IfReturns (Fits n) (Option.map (λ ((u, p') : ℕ × Printer). f u p') (next_word p))
  words-Fits k f p fits room =
      IfReturns-mapped (Fits n) (next_word p) (λ ((u, p') : ℕ × Printer). f u p')
        (next_word-Room k p room) (λ a. fits a.0 a.1)

  put_block-Fits :
      (k : ℕ) (bytes : List ℕ) (p : Printer)
      → length bytes ≡ k
      → Room n k p
      → Fits n (put_block k bytes p)
  unfolding put_block
  put_block-Fits k bytes p is (fits, room) =
      omega (arith, fits, room, is, length-append p.written bytes)

  print_signed-Fits : (u : ℕ) (p : Printer) → Room n 1 p → Fits n (print_signed u p)
  unfolding print_signed print_unsigned
  print_signed-Fits u p (fits, room) = elim (Bool-cases (ltb u 0x80000000)) [
    | inl small ↦ rw small (put_digits-Fits (digits 10 u []) p (omega (arith, fits)) room)
    | inr large ↦ rw large (elim (Bool-cases (p.l - 1 == 0)) [
      | inl full ↦ rw full (omega (arith, fits, room, length-append p.written (b'-' ∷ [])))
      | inr free ↦ rw free (
          put_digits-Fits (digits 10 (0x100000000 - u) [])
            (record p { written = p.written ++ b'-' ∷ []; l = p.l - 1 })
            (omega (arith, fits, room, length-append p.written (b'-' ∷ []))) (ground (arith, free)))
    ])
  ]

pub length-hex_digits :
    (k u : ℕ) (after : List ℕ) → length (hex_digits k u after) ≡ k + length after
unfolding hex_digits
length-hex_digits zero u after = omega arith
length-hex_digits (suc k) u after =
    length-hex_digits k (u / 16) (hexmap (u % 16) ∷ after) ∙ omega arith

module _ (n : ℕ) where
  hex-Fits : (k u : ℕ) (p : Printer) → Room n k p → Fits n (put_block k (hex_digits k u []) p)
  hex-Fits k u p room =
      put_block-Fits n k (hex_digits k u []) p (length-hex_digits k u [] ∙ omega arith) room

  print_short-Fits : (k : ℕ) (p : Printer) → Room n 1 p → IfReturns (Fits n) (print_short k p)
  unfolding print_short
  print_short-Fits k p (fits, room) =
      IfReturns-test _ (ltb p.l k) _ _
        (λ full. (let fits' : Fits n (record p { l = 0 }) = omega (arith, fits) in fits'))
        (λ free.
          words-Fits n k (λ u. put_block k (hex_digits k u [])) p (hex-Fits k)
            (fits, ground (arith, free)))

  print_hex-Fits : (p : Printer) → Room n 1 p → IfReturns (Fits n) (print_hex p)
  unfolding print_hex
  print_hex-Fits p (fits, room) =
      let none_fit : Fits n (record p { l = 0 }) = omega (arith, fits) in
      IfReturns-if _ p.mod_ll _ _
        (IfReturns-test _ (ltb p.l 16) _ _ (λ full. none_fit)
          (λ free.
            IfReturns-mapped (Fits n) (next_long p) _
              (next_long-Room n 16 p (fits, ground (arith, free))) (λ a. hex-Fits 16 a.0 a.1)))
        (IfReturns-test _ (ltb p.l 8) _ _ (λ full. none_fit)
          (λ free.
            words-Fits n 8
              (λ u q. record (put_block 8 (hex_digits 8 u []) q) { mod_l = false; mod_ll = false })
              p (hex-Fits 8) (fits, ground (arith, free))))

  digits-Fits : (ds : ℕ → List ℕ) (u : ℕ) (p : Printer) → Room n 1 p → Fits n (put_digits (ds u) p)
  digits-Fits ds u p (fits, room) = put_digits-Fits n (ds u) p (omega (arith, fits)) room

  other-Fits :
      (x : ℕ) (p : Printer) → Room n 1 p → Fits n (record p { written = p.written ++ x ∷ [] })
  other-Fits x p (fits, room) = omega (arith, fits, length-append p.written (x ∷ []))

  lengthen-Room : (p : Printer) → Room n 1 p → Room n 1 (lengthen p)
  unfolding lengthen
  lengthen-Room p room = ground (arith, room)

  print_char-Fits : (p : Printer) → Room n 1 p → IfReturns (Fits n) (print_char p)
  unfolding print_char
  print_char-Fits p room =
      words-Fits n 1 (λ u q. record q { written = q.written ++ (u % 256) ∷ []; l = q.l - 1 }) p
        (λ u q (fits, room'). omega (arith, fits, room', length-append q.written ((u % 256) ∷ [])))
        room

  directive-Fits : (x : ℕ) (p : Printer) → Room n 1 p → IfReturns (Fits n) (directive x p)
  unfolding directive print_unsigned
  directive-Fits x p room =
      IfReturns-if (Fits n) (x == b's') _ _
        (IfReturns-mapped (Fits n) (next_text p) (λ a. put_text a.0 a.1) (next_text-Room n 1 p room)
          (λ a (fits, one). put_text-Fits n a.0 a.1 (omega (arith, fits))))
        (IfReturns-if (Fits n) (x == b'c') _ _ (print_char-Fits p room) (
          IfReturns-if (Fits n) (x == b'S') _ _ (print_short-Fits 4 p room) (
            IfReturns-if (Fits n) ((x == b'x') || (x == b'p')) _ _ (print_hex-Fits p room) (
              IfReturns-if (Fits n) (x == b'd') _ _
                (words-Fits n 1 print_signed p (print_signed-Fits n) room)
                (IfReturns-if (Fits n) (x == b'u') _ _
                  (words-Fits n 1 print_unsigned p (digits-Fits (λ u. digits 10 u [])) room)
                  (IfReturns-if (Fits n) (x == b'U') _ _
                    (words-Fits n 1 (λ u. put_digits (last_four u)) p (digits-Fits last_four) room)
                    (IfReturns-if (Fits n) (x == b'X') _ _ (print_short-Fits 2 p room)
                      (other-Fits x p room))))))))

  print_loop-Fits :
      (within : Bool) (fmt : List ℕ) (p : Printer)
      → (if within then Room n 1 p else Fits n p)
      → IfReturns (Fits n) (print_loop within fmt p)
  unfolding print_loop
  print_loop-Fits false [] p fits = fits
  print_loop-Fits true [] p room = tt
  print_loop-Fits false (x ∷ fmt) p fits =
      IfReturns-test _ (p.l == 0) _ _ (λ full. fits)
        (λ free.
          IfReturns-if _ (x == b'%') _ _
            (IfReturns-test _ (p.l - 1 == 0) _ _
              (λ last. (let fits' : Fits n (record p { l = 0 }) = omega (arith, fits) in fits'))
              (λ more.
                print_loop-Fits true fmt (record p { l = p.l - 1 })
                  (ground (arith, fits, free), ground (arith, more))))
            (print_loop-Fits false fmt (record p { written = p.written ++ x ∷ []; l = p.l - 1 })
              (ground (arith, fits, free, length-append p.written (x ∷ [])))))
  print_loop-Fits true (x ∷ fmt) p room =
      IfReturns-if _ (x == b'l') _ _ (print_loop-Fits true fmt (lengthen p) (lengthen-Room p room))
        (IfReturns-then _ (directive x p) (print_loop false fmt) (directive-Fits x p room)
          (λ p' fits. print_loop-Fits false fmt p' fits))

-- The bound, if there is a result.
pub va_snprintf-Fits :
    (l : ℕ) (fmt : List ℕ) (pvar : List Arg)
    → IfReturns (λ out. length out ≤ l + 1) (va_snprintf l fmt pvar)
unfolding va_snprintf
va_snprintf-Fits l fmt pvar =
    let P : List ℕ → Type 0 = λ out. length out ≤ l + 1 in
    IfReturns-if P (l == 0) (some []) _ (omega arith) (
      IfReturns-mapped P _ (λ p. p.written ++ 0 ∷ [])
        (print_loop-Fits l false fmt
          (record { written = []; l = l; mod_l = false; mod_ll = false; pvar = pvar })
          (omega arith))
        (λ p fits. omega (arith, fits, length-append p.written (0 ∷ []))))
