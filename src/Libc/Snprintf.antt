-- ===== src/Libc/Snprintf.antt =====
-- blt/lib/libc/snprintf.c. A word is below 2 ^ 32, a long one below 2 ^ 64; texts are lists of bytes without
-- the 0 at their end. An argument of another kind than the one that is read, and a format that ends within a
-- directive, give none: the source reads what is not there.
pub mod Digits
pub mod Bounds
pub mod Whole
pub mod Reads
pub mod Ends
pub mod Tests
use os_open_blt.Base.{
  ℕ, zero, suc, ◌+◌, ◌-◌, ◌/◌, ◌%◌, Bool, true, false, Option, none, some, List, [], ◌∷◌, ◌++◌,
  ◌==◌, ltb, ◌||◌, if◌then◌else◌,
}
use mathlib.Core.Option

-- What the caller passes.
pub data Arg : Type 0 where
  text : List ℕ → Arg
  word : ℕ → Arg
  long_word : ℕ → Arg

-- The bytes from the start of the buffer to `b`, `l`, the two modifiers and the arguments that are left.
pub record Printer : Type 0 where
  pub written : List ℕ
  pub l : ℕ
  pub mod_l : Bool
  pub mod_ll : Bool
  pub pvar : List Arg

-- `va_arg`: the argument, if it is of the kind that is read, and the others.
pub pull_text : List Arg → Option (List ℕ × List Arg)
pull_text [] = none
pull_text (text x ∷ rest) = some (x, rest)
pull_text (word x ∷ rest) = none
pull_text (long_word x ∷ rest) = none

pub next_text : Printer → Option (List ℕ × Printer)
next_text p =
    Option.map (λ ((x, rest) : List ℕ × List Arg). (x, record p { pvar = rest })) (pull_text p.pvar)

pub pull_word : List Arg → Option (ℕ × List Arg)
pull_word [] = none
pull_word (text x ∷ rest) = none
pull_word (word x ∷ rest) = some (x, rest)
pull_word (long_word x ∷ rest) = none

pub next_word : Printer → Option (ℕ × Printer)
next_word p =
    Option.map (λ ((x, rest) : ℕ × List Arg). (x, record p { pvar = rest })) (pull_word p.pvar)

pub pull_long : List Arg → Option (ℕ × List Arg)
pull_long [] = none
pull_long (text x ∷ rest) = none
pull_long (word x ∷ rest) = none
pull_long (long_word x ∷ rest) = some (x, rest)

pub next_long : Printer → Option (ℕ × Printer)
next_long p =
    Option.map (λ ((x, rest) : ℕ × List Arg). (x, record p { pvar = rest })) (pull_long p.pvar)

-- `hexmap`.
pub hexmap : ℕ → ℕ
hexmap n = if ltb n 10 then b'0' + n else b'a' + (n - 10)

-- The loops that fill `b[0]` to `b[i]` from the last on, before the bytes `after` that are filled.
unfoldable pub hex_digits : ℕ → ℕ → List ℕ → List ℕ
hex_digits zero u after = after
hex_digits (suc i) u after = hex_digits i (u / 16) (hexmap (u % 16) ∷ after)

-- `u` in `d`, from `d[i - 1]` down, before the digits that are there.
unfoldable pub digits : ℕ → ℕ → List ℕ → List ℕ
digits zero u after = after
digits (suc i) u after =
    let after' = (u % 10 + b'0') ∷ after in
    let more = digits i (u / 10) after' in if u / 10 == 0 then after' else more

-- `while(l && *t) *b++ = *t++, l--`.
pub put_text : List ℕ → Printer → Printer
put_text [] p = p
put_text (x ∷ t) p =
    let rest = put_text t (record p { written = p.written ++ x ∷ []; l = p.l - 1 }) in
    if p.l == 0 then p else rest

-- `while(++i < 10){ *b++ = d[i]; if(!(--l)) break; }`, where `l` is not 0 before.
pub put_digits : List ℕ → Printer → Printer
put_digits [] p = p
put_digits (x ∷ ds) p =
    let p' = record p { written = p.written ++ x ∷ []; l = p.l - 1 } in
    let rest = put_digits ds p' in if p'.l == 0 then p' else rest

-- `n` bytes that are put together.
pub put_block : ℕ → List ℕ → Printer → Printer
put_block n bytes p = record p { written = p.written ++ bytes; l = p.l - n }

pub print_char : Printer → Option Printer
print_char p =
    Option.map
      (λ ((n, p') : ℕ × Printer). record p' {
        written = p'.written ++ (n % 256) ∷ [];
        l = p'.l - 1;
      })
      (next_word p)

-- `x` and `p`; the argument is not read where there is no room.
pub print_hex : Printer → Option Printer
print_hex p =
    let clear : Printer → Printer = λ q. record q { mod_l = false; mod_ll = false } in
    if p.mod_ll
    then (if ltb p.l 16
        then some (record p { l = 0 })
        else Option.map (λ ((n, p') : ℕ × Printer). clear (put_block 16 (hex_digits 16 n []) p'))
            (next_long p))
    else (if ltb p.l 8
        then some (record p { l = 0 })
        else Option.map (λ ((n, p') : ℕ × Printer). clear (put_block 8 (hex_digits 8 n []) p'))
            (next_word p))

-- `S` and `X`: so many digits of a word.
pub print_short : ℕ → Printer → Option Printer
print_short n p =
    if ltb p.l n
    then some (record p { l = 0 })
    else Option.map (λ ((u, p') : ℕ × Printer). put_block n (hex_digits n u []) p') (next_word p)

pub print_unsigned : ℕ → Printer → Printer
print_unsigned u p = put_digits (digits 10 u []) p

-- `d`, of a word whose upper half is negative.
pub print_signed : ℕ → Printer → Printer
print_signed n p =
    let minus = record p { written = p.written ++ b'-' ∷ []; l = p.l - 1 } in
    if ltb n 0x80000000
    then print_unsigned n p
    else (if minus.l == 0 then minus else print_unsigned (0x100000000 - n) minus)

-- The last four of `d[6]` to `d[9]`, spaces where there is no digit but in `d[9]`.
pub last_four : ℕ → List ℕ
last_four u =
    let digit : ℕ → ℕ = λ v. if v == 0 then b' ' else v % 10 + b'0' in
    digit (u / 1000) ∷ digit (u / 100) ∷ digit (u / 10) ∷ (u % 10 + b'0') ∷ []

-- The switch, for a byte that is not an `l`.
pub directive : ℕ → Printer → Option Printer
directive x p =
    if x == b's'
    then Option.map (λ ((t, p') : List ℕ × Printer). put_text t p') (next_text p)
    else (if x == b'c'
        then print_char p
        else (if x == b'S'
            then print_short 4 p
            else (if (x == b'x') || (x == b'p')
                then print_hex p
                else (if x == b'd'
                    then Option.map (λ ((n, p') : ℕ × Printer). print_signed n p') (next_word p)
                    else (if x == b'u'
                        then Option.map (λ ((u, p') : ℕ × Printer). print_unsigned u p')
                            (next_word p)
                        else (if x == b'U'
                            then Option.map (λ ((u, p') : ℕ × Printer). put_digits (last_four u) p')
                                (next_word p)
                            else (if x == b'X'
                                then print_short 2 p
                                else some (record p { written = p.written ++ x ∷ [] }))))))))

-- The modifier `l`.
pub lengthen : Printer → Printer
lengthen p =
    if p.mod_l
    then (if p.mod_ll then p else record p { mod_l = false; mod_ll = true })
    else record p { mod_l = true }

-- The loop over the format, at a byte of it or within a directive.
pub print_loop : Bool → List ℕ → Printer → Option Printer
print_loop false [] p = some p
print_loop true [] p = none
print_loop false (x ∷ fmt) p =
    let plain = print_loop false fmt (record p { written = p.written ++ x ∷ []; l = p.l - 1 }) in
    let within = print_loop true fmt (record p { l = p.l - 1 }) in
    if p.l == 0
    then some p
    else (if x == b'%' then (if p.l - 1 == 0 then some (record p { l = 0 }) else within) else plain)
print_loop true (x ∷ fmt) p =
    let again = print_loop true fmt (lengthen p) in
    let next = Option.bind (directive x p) (print_loop false fmt) in
    if x == b'l' then again else next

-- What `va_snprintf` writes from `b` on.
pub va_snprintf : ℕ → List ℕ → List Arg → Option (List ℕ)
va_snprintf l fmt pvar =
    if l == 0
    then some []
    else Option.map (λ (p : Printer). p.written ++ 0 ∷ [])
        (print_loop false fmt
          (record { written = []; l = l; mod_l = false; mod_ll = false; pvar = pvar }))
