-- ===== src/Libc/Snprintf/Whole.antt =====
-- What blt/lib/libc/snprintf.c prints where there is room for all of it.
use os_open_blt.Base.{
  ℕ, ◌+◌, ◌-◌, ◌%◌, ◌≤◌, ◌<◌, ◌≡◌, refl, ap, false, some, List, [], ◌∷◌, ◌++◌, ◌==◌, ltb,
  if◌then◌else◌, length, arith, Bool-cases, inl, inr, ◌∙◌, sym,
}
use mathlib.Core.Option
use mathlib.Core.List.{append_assoc, append-nil}
use os_open_blt.Libc.Snprintf.{
  Arg, text, word, Printer, pull_text, pull_word, next_text, next_word, hex_digits, digits,
  put_text, put_digits, put_block, print_char, print_hex, print_unsigned, print_signed, directive,
  print_loop, va_snprintf,
}

-- A byte of a format, or a directive with its argument.
pub data Piece : Type 0 where
  literal : ℕ → Piece
  string_arg : List ℕ → Piece
  char_arg : ℕ → Piece
  hex_arg : ℕ → Piece
  signed_arg : ℕ → Piece
  unsigned_arg : ℕ → Piece

-- The format before `rest`.
unfoldable pub format : Piece → List ℕ → List ℕ
format (literal x) rest = x ∷ rest
format (string_arg t) rest = b'%' ∷ b's' ∷ rest
format (char_arg x) rest = b'%' ∷ b'c' ∷ rest
format (hex_arg u) rest = b'%' ∷ b'x' ∷ rest
format (signed_arg n) rest = b'%' ∷ b'd' ∷ rest
format (unsigned_arg u) rest = b'%' ∷ b'u' ∷ rest

unfoldable pub args : Piece → List Arg → List Arg
args (literal x) rest = rest
args (string_arg t) rest = text t ∷ rest
args (char_arg x) rest = word x ∷ rest
args (hex_arg u) rest = word u ∷ rest
args (signed_arg n) rest = word n ∷ rest
args (unsigned_arg u) rest = word u ∷ rest

-- What is to be printed.
unfoldable pub shown : Piece → List ℕ
shown (literal x) = x ∷ []
shown (string_arg t) = t
shown (char_arg x) = (x % 256) ∷ []
shown (hex_arg u) = hex_digits 8 u []
shown (signed_arg n) =
    if ltb n 0x80000000 then digits 10 n [] else b'-' ∷ digits 10 (0x100000000 - n) []
shown (unsigned_arg u) = digits 10 u []

-- What it takes of `l`: a `%` takes a byte too.
unfoldable pub cost : Piece → ℕ
cost (literal x) = 1
cost (string_arg t) = 1 + length t
cost (char_arg x) = 2
cost (hex_arg u) = 9
cost (signed_arg n) = 1 + length (shown (signed_arg n))
cost (unsigned_arg u) = 1 + length (digits 10 u [])

unfoldable pub all_formats : List Piece → List ℕ
all_formats [] = []
all_formats (a ∷ more) = format a (all_formats more)

unfoldable pub all_args : List Piece → List Arg
all_args [] = []
all_args (a ∷ more) = args a (all_args more)

unfoldable pub all_shown : List Piece → List ℕ
all_shown [] = []
all_shown (a ∷ more) = shown a ++ all_shown more

unfoldable pub all_cost : List Piece → ℕ
all_cost [] = 0
all_cost (a ∷ more) = cost a + all_cost more

-- A byte that begins no directive.
abbrev IsPlain : Piece → Type 0
IsPlain (literal x) = (x == b'%') ≡ false
IsPlain (string_arg t) = Unit {0}
IsPlain (char_arg x) = Unit {0}
IsPlain (hex_arg u) = Unit {0}
IsPlain (signed_arg n) = Unit {0}
IsPlain (unsigned_arg u) = Unit {0}

abbrev pub ArePlain : List Piece → Type 0
ArePlain [] = Unit {0}
ArePlain (a ∷ more) = IsPlain a × ArePlain more

abbrev ready : List ℕ → ℕ → List Arg → Printer
ready written l pvar = record {
  written = written;
  l = l;
  mod_l = false;
  mod_ll = false;
  pvar = pvar;
}

ready-ap :
    (w w' : List ℕ) (l l' : ℕ) (pvar : List Arg)
    → w ≡ w'
    → l ≡ l'
    → ready w l pvar ≡ ready w' l' pvar
ready-ap w w' l l' pvar ws ls = rw (ws, ls) refl

module _ (pvar : List Arg) where
  put_text-whole :
      (t w : List ℕ) (l : ℕ)
      → length t ≤ l
      → put_text t (ready w l pvar) ≡ ready (w ++ t) (l - length t) pvar
  unfolding put_text
  put_text-whole [] w l room =
      ready-ap w (w ++ []) l (l - 0) pvar (sym (append-nil w)) (omega arith)
  put_text-whole (x ∷ t) w l room =
      let free : (l == 0) ≡ false = ground (arith, room) in
      rw free (
        put_text-whole t (w ++ x ∷ []) (l - 1) (omega (arith, room))
        ∙ ready-ap ((w ++ x ∷ []) ++ t) (w ++ (x ∷ t)) (l - 1 - length t) (l - length (x ∷ t)) pvar
            (append_assoc w (x ∷ []) t) (omega arith))

  put_digits-whole :
      (ds w : List ℕ) (l : ℕ)
      → length ds < l
      → put_digits ds (ready w l pvar) ≡ ready (w ++ ds) (l - length ds) pvar
  unfolding put_digits
  put_digits-whole [] w l room =
      ready-ap w (w ++ []) l (l - 0) pvar (sym (append-nil w)) (omega arith)
  put_digits-whole (x ∷ ds) w l room =
      let free : (l - 1 == 0) ≡ false = ground (arith, room) in
      rw free (
        put_digits-whole ds (w ++ x ∷ []) (l - 1) (omega (arith, room))
        ∙ ready-ap ((w ++ x ∷ []) ++ ds) (w ++ (x ∷ ds)) (l - 1 - length ds) (l - length (x ∷ ds))
            pvar (append_assoc w (x ∷ []) ds) (omega arith))

  print_signed-whole :
      (n : ℕ) (w : List ℕ) (l : ℕ)
      → length (shown (signed_arg n)) < l
      → print_signed n (ready w l pvar)
        ≡ ready (w ++ shown (signed_arg n)) (l - length (shown (signed_arg n))) pvar
  unfolding print_signed print_unsigned shown
  print_signed-whole n w l room = elim (Bool-cases (ltb n 0x80000000)) [
    | inl small ↦ rw small (put_digits-whole (digits 10 n []) w l (rw small at room))
    | inr large ↦ rw large (
        let ds = digits 10 (0x100000000 - n) [] in
        let room' : length (b'-' ∷ ds) < l = rw large at room in
        let free : (l - 1 == 0) ≡ false = ground (arith, room') in
        rw free (
          put_digits-whole ds (w ++ b'-' ∷ []) (l - 1) (omega (arith, room'))
          ∙ ready-ap ((w ++ b'-' ∷ []) ++ ds) (w ++ (b'-' ∷ ds)) (l - 1 - length ds)
              (l - length (b'-' ∷ ds)) pvar (append_assoc w (b'-' ∷ []) ds) (omega arith)))
  ]

sooner :
    (w : List ℕ) (l k : ℕ) (pvar : List Arg) → ready w (l - 1 - k) pvar ≡ ready w (l - (1 + k)) pvar
sooner w l k pvar = ready-ap w w (l - 1 - k) (l - (1 + k)) pvar refl (omega arith)

-- The loop after a piece.
abbrev Printed : Piece → List ℕ → List ℕ → ℕ → List Arg → Type 0
Printed a rest w l pvar =
    print_loop false (format a rest) (ready w l (args a pvar))
    ≡ print_loop false rest (ready (w ++ shown a) (l - cost a) pvar)

-- A directive and its letter, where more than a byte is free.
enter :
    (x : ℕ) (rest w : List ℕ) (l : ℕ) (pvar : List Arg)
    → 1 < l
    → (x == b'l') ≡ false
    → print_loop false (b'%' ∷ x ∷ rest) (ready w l pvar)
      ≡ Option.bind (directive x (ready w (l - 1) pvar)) (print_loop false rest)
unfolding print_loop
enter x rest w l pvar room letter =
    let free : (l == 0) ≡ false = ground (arith, room) in
    let more : (l - 1 == 0) ≡ false = ground (arith, room) in rw (free, more, letter) refl

print_piece :
    (a : Piece) (rest w : List ℕ) (l : ℕ) (pvar : List Arg)
    → IsPlain a
    → cost a < l
    → Printed a rest w l pvar
unfolding print_loop format args shown cost directive next_word next_text pull_word pull_text
    Option.bind print_char print_hex put_block print_unsigned
print_piece (literal x) rest w l pvar plain room =
    let free : (l == 0) ≡ false = ground (arith, room) in rw (print_loop, free, plain) refl
print_piece (string_arg t) rest w l pvar plain room =
    enter b's' rest w l (text t ∷ pvar) (omega (arith, room)) refl
    ∙ ap (print_loop false rest)
        (put_text-whole pvar t w (l - 1) (omega (arith, room)) ∙ sooner (w ++ t) l (length t) pvar)
print_piece (char_arg x) rest w l pvar plain room =
    enter b'c' rest w l (word x ∷ pvar) (omega (arith, room)) refl
    ∙ ap (print_loop false rest) (sooner (w ++ (x % 256) ∷ []) l 1 pvar)
print_piece (hex_arg u) rest w l pvar plain room =
    let free : ltb (l - 1) 8 ≡ false = ground (arith, room) in
    enter b'x' rest w l (word u ∷ pvar) (omega (arith, room)) refl
    ∙ rw free (ap (print_loop false rest) (sooner (w ++ hex_digits 8 u []) l 8 pvar))
print_piece (signed_arg n) rest w l pvar plain room =
    enter b'd' rest w l (word n ∷ pvar) (omega (arith, room)) refl
    ∙ ap (print_loop false rest) (
        print_signed-whole pvar n w (l - 1) (omega (arith, room))
        ∙ sooner (w ++ shown (signed_arg n)) l (length (shown (signed_arg n))) pvar)
print_piece (unsigned_arg u) rest w l pvar plain room =
    let ds = digits 10 u [] in
    enter b'u' rest w l (word u ∷ pvar) (omega (arith, room)) refl
    ∙ ap (print_loop false rest) (
        put_digits-whole pvar ds w (l - 1) (omega (arith, room))
        ∙ sooner (w ++ ds) l (length ds) pvar)

print_pieces :
    (pieces : List Piece) (w : List ℕ) (l : ℕ)
    → ArePlain pieces
    → all_cost pieces < l
    → print_loop false (all_formats pieces) (ready w l (all_args pieces))
      ≡ some (ready (w ++ all_shown pieces) (l - all_cost pieces) [])
unfolding print_loop all_formats all_args all_shown all_cost
print_pieces [] w l plain room =
    ap some (ready-ap w (w ++ []) l (l - 0) [] (sym (append-nil w)) (omega arith))
print_pieces (a ∷ more) w l (plain, plains) room =
    print_piece a (all_formats more) w l (all_args more) plain (omega (arith, room))
    ∙ print_pieces more (w ++ shown a) (l - cost a) plains (omega (arith, room))
    ∙ ap some (
        ready-ap ((w ++ shown a) ++ all_shown more) (w ++ (shown a ++ all_shown more))
          (l - cost a - all_cost more) (l - (cost a + all_cost more)) []
          (append_assoc w (shown a) (all_shown more)) (omega arith))

-- For a format of bytes other than `%` and of `%s`, `%c`, `%x`, `%d` and `%u`, with the arguments that they read, and
-- an `l` above the bytes to be printed and the number of directives together, `va_snprintf` writes what each piece of
-- the format prints, in order, and a 0.
pub va_snprintf-whole :
    (pieces : List Piece) (l : ℕ)
    → ArePlain pieces
    → all_cost pieces < l
    → va_snprintf l (all_formats pieces) (all_args pieces) ≡ some (all_shown pieces ++ 0 ∷ [])
unfolding va_snprintf
va_snprintf-whole pieces l plain room =
    let free : (l == 0) ≡ false = ground (arith, room) in
    rw free
      (ap (Option.map (λ (p : Printer). p.written ++ 0 ∷ [])) (print_pieces pieces [] l plain room))
