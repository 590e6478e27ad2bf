-- ===== src/Netboot/Console/Address.antt =====
-- Addresses as blt/netboot/netboot.c reads them from a text.
use os_open_blt.Base.{
  ℕ, suc, ◌+◌, ◌-◌, ◌*◌, ◌%◌, ◌≤◌, ◌<◌, ◌≡◌, refl, ◌∙◌, ap, true, false, List, [], ◌∷◌, ◌++◌, ◌==◌,
  arith,
}
use os_open_blt.Libc.Snprintf.{digits}
use os_open_blt.Libc.Snprintf.Digits.{value, are_digits, digits-decimal}
use os_open_blt.Libc.Snprintf.Whole.{Piece, literal, unsigned_arg, all_shown, shown}
use os_open_blt.Netboot.Console.{read_number, read_ip}

-- A text that is empty or goes on with a `.`.
abbrev Stops : List ℕ → Type 0
Stops [] = Unit {0}
Stops (x ∷ s) = x ≡ b'.'

read_number-digits :
    (ds rest : List ℕ) (n v : ℕ)
    → are_digits ds ≡ true
    → Stops rest
    → v ≡ n % 256
    → read_number (ds ++ rest) v ≡ (value n ds % 256, rest)
unfolding read_number value are_digits
read_number-digits [] [] n v ok stops is = ap (λ m. (m, [])) is
read_number-digits [] (x ∷ rest) n v ok stops is =
    let dot : (x == b'.') ≡ true = ground (arith, stops) in rw dot (ap (λ m. (m, x ∷ rest)) is)
read_number-digits (x ∷ ds) rest n v ok stops is =
    let other : (x == b'.') ≡ false = ground (arith, ok) in
    let low : 48 ≤ x = ground (arith, ok) in
    rw other (
      read_number-digits ds rest (n * 10 + (x - b'0')) ((v * 10 + x + (256 - b'0')) % 256)
        (ground (arith, ok)) stops (omega (arith, low, is)))

read_number-decimal :
    (a : ℕ) (rest : List ℕ)
    → a < 256
    → Stops rest
    → read_number (digits 10 a [] ++ rest) 0 ≡ (a, rest)
read_number-decimal a rest small stops =
    let (is, ok, lead) = digits-decimal a (omega (arith, small)) in
    read_number-digits (digits 10 a []) rest 0 0 ok stops refl
    ∙ ap (λ m. (m, rest)) (ap (λ m. m % 256) is ∙ omega (arith, small))

read_ip-next :
    (i a old : ℕ) (rest ip : List ℕ)
    → a < 256
    → read_ip (suc i) (digits 10 a [] ++ (b'.' ∷ rest)) (old ∷ ip) ≡ a ∷ read_ip i rest ip
unfolding read_ip
read_ip-next i a old rest ip small =
    let number = read_number-decimal a (b'.' ∷ rest) small refl in rw (read_ip, number, number) refl

read_ip-last :
    (i a old : ℕ) (ip : List ℕ)
    → a < 256
    → read_ip (suc i) (digits 10 a [] ++ []) (old ∷ ip) ≡ a ∷ ip
unfolding read_ip
read_ip-last i a old ip small =
    let number = read_number-decimal a [] small tt in rw (read_ip, number, number) refl

-- "%u.%u.%u.%u" for an address.
abbrev pub quad : ℕ → ℕ → ℕ → ℕ → List Piece
quad a b c d =
    unsigned_arg a
    ∷ literal b'.'
    ∷ unsigned_arg b
    ∷ literal b'.'
    ∷ unsigned_arg c
    ∷ literal b'.'
    ∷ unsigned_arg d
    ∷ []

-- `read_ip` reads the four bytes of an address from what `%u.%u.%u.%u` prints of them, whatever address was there.
pub read_ip-quad :
    (a b c d p q r s : ℕ)
    → a < 256
    → b < 256
    → c < 256
    → d < 256
    → read_ip 4 (all_shown (quad a b c d)) (p ∷ q ∷ r ∷ s ∷ []) ≡ a ∷ b ∷ c ∷ d ∷ []
unfolding all_shown shown
read_ip-quad a b c d p q r s a_small b_small c_small d_small =
    read_ip-next 3 a p
      (all_shown
        (unsigned_arg b ∷ literal b'.' ∷ unsigned_arg c ∷ literal b'.' ∷ unsigned_arg d ∷ []))
      (q ∷ r ∷ s ∷ []) a_small
    ∙ ap (λ xs. a ∷ xs)
        (read_ip-next 2 b q (all_shown (unsigned_arg c ∷ literal b'.' ∷ unsigned_arg d ∷ []))
            (r ∷ s ∷ []) b_small
          ∙ ap (λ xs. b ∷ xs)
              (read_ip-next 1 c r (all_shown (unsigned_arg d ∷ [])) (s ∷ []) c_small
                ∙ ap (λ xs. c ∷ xs) (read_ip-last 0 d s [] d_small)))
