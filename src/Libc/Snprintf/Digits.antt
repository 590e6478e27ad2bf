-- ===== src/Libc/Snprintf/Digits.antt =====
-- The decimal digits of blt/lib/libc/snprintf.c.
use os_open_blt.Base.{
  ℕ, zero, suc, ◌+◌, ◌-◌, ◌*◌, ◌/◌, ◌%◌, ◌<◌, ◌≡◌, refl, ap, ◌∙◌, Bool, true, List, [], ◌∷◌, ◌==◌,
  arith, Bool-cases, inl, inr, leb, ◌&&◌,
}
use os_open_blt.Libc.Snprintf.{digits}

-- What a text of digits means, behind digits that mean `n`.
unfoldable pub value : ℕ → List ℕ → ℕ
value n [] = n
value n (x ∷ xs) = value (n * 10 + (x - b'0')) xs

-- 10 to a power.
unfoldable pub power : ℕ → ℕ
power zero = 1
power (suc i) = 10 * power i

-- Every byte is a digit.
unfoldable pub are_digits : List ℕ → Bool
are_digits [] = true
are_digits (x ∷ xs) = (leb b'0' x && leb x b'9') && are_digits xs

-- There is a digit, and a 0 comes first only where the number is 0.
abbrev pub Leads : ℕ → List ℕ → Type 0
Leads u [] = ⊥
Leads u (x ∷ xs) = (x ≡ b'0') → u ≡ 0

-- The value where no digit is left, and where some are.
value_last :
    (u : ℕ) (after : List ℕ) → u / 10 ≡ 0 → value 0 ((u % 10 + b'0') ∷ after) ≡ value u after
unfolding value
value_last u after last = ap (λ n. value n after) (omega (arith, last))

value_more : (u : ℕ) (after : List ℕ) → value (u / 10) ((u % 10 + b'0') ∷ after) ≡ value u after
unfolding value
value_more u after = ap (λ n. value n after) (omega arith)

digits-value :
    (i u : ℕ) (after : List ℕ)
    → u < power (suc i)
    → value 0 (digits (suc i) u after) ≡ value u after
unfolding digits power
digits-value zero u after small =
    let last : u / 10 ≡ 0 = omega (arith, small) in
    let test : (u / 10 == 0) ≡ true = ground (arith, last) in rw test (value_last u after last)
digits-value (suc i) u after small = elim (Bool-cases (u / 10 == 0)) [
  | inl last ↦ rw last (value_last u after (ground (arith, last)))
  | inr more ↦ rw more (
      digits-value i (u / 10) ((u % 10 + b'0') ∷ after) (let b = power i in omega (arith, small))
      ∙ value_more u after)
]

digits-are_digits :
    (i u : ℕ) (after : List ℕ) → are_digits after ≡ true → are_digits (digits i u after) ≡ true
unfolding digits are_digits
digits-are_digits zero u after ok = ok
digits-are_digits (suc i) u after ok =
    let next : are_digits ((u % 10 + b'0') ∷ after) ≡ true = ground (arith, ok) in
    elim (Bool-cases (u / 10 == 0)) [
      | inl last ↦ rw last next
      | inr more ↦ rw more (digits-are_digits i (u / 10) ((u % 10 + b'0') ∷ after) next)
    ]

Leads-mono : (u v : ℕ) (ds : List ℕ) → (u ≡ 0 → v ≡ 0) → Leads u ds → Leads v ds
Leads-mono u v [] zeros lead = lead
Leads-mono u v (x ∷ ds) zeros lead = λ is. zeros (lead is)

digits-Leads : (i u : ℕ) (after : List ℕ) → u < power (suc i) → Leads u (digits (suc i) u after)
unfolding digits power
digits-Leads zero u after small =
    let last : u / 10 ≡ 0 = omega (arith, small) in
    let test : (u / 10 == 0) ≡ true = ground (arith, last) in
    rw test (λ is. omega (arith, is, small))
digits-Leads (suc i) u after small = elim (Bool-cases (u / 10 == 0)) [
  | inl last ↦ rw last (λ is. ground (arith, last, is))
  | inr more ↦ rw more (
      Leads-mono (u / 10) u (digits (suc i) (u / 10) ((u % 10 + b'0') ∷ after))
        (λ none_left. ground (arith, more, none_left))
        (digits-Leads i (u / 10) ((u % 10 + b'0') ∷ after)
          (let b = power i in omega (arith, small))))
]

-- The digits that `%u` prints of a word are decimal digits of it: read as a decimal number they give the word,
-- and the first is a 0 for the word 0 only.
pub digits-decimal :
    (u : ℕ)
    → u < 0x100000000
    → (value 0 (digits 10 u []) ≡ u)
      × (are_digits (digits 10 u []) ≡ true)
      × Leads u (digits 10 u [])
unfolding power value are_digits
digits-decimal u small = (
  digits-value 9 u [] (omega (arith, small)),
  digits-are_digits 10 u [] refl,
  digits-Leads 9 u [] (omega (arith, small)),
)
