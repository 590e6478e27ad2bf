-- ===== src/Libc/Snprintf/Reads.antt =====
-- The arguments that a directive of blt/lib/libc/snprintf.c reads.
use mathlib.Core.Option
use os_open_blt.Base.{
  ℕ, ◌-◌, ◌≡◌, ◌⊎◌, inl, inr, refl, Bool, true, false, ◌&&◌, ◌||◌, not, Option, some, List, [], ◌∷◌,
  ◌++◌, ◌==◌, ltb, if◌then◌else◌, arith, Bool-cases, Returns, Returns-test,
}
use os_open_blt.Libc.Snprintf.{
  Arg, Printer, pull_text, pull_word, pull_long, next_text, next_word, next_long, hex_digits,
  digits, put_text, put_digits, put_block, print_char, print_hex, print_short, print_unsigned,
  print_signed, last_four, directive,
}

-- The arguments after the one of the kind that a directive reads, if that is there.
abbrev pub takes : ℕ → Bool → List Arg → Option (List Arg)
takes x mod_ll args =
    let after_word = Option.map (λ ((n, rest) : ℕ × List Arg). rest) (pull_word args) in
    if x == b's'
    then Option.map (λ ((t, rest) : List ℕ × List Arg). rest) (pull_text args)
    else if x == b'c'
    then after_word
    else if x == b'S'
    then after_word
    else if x == b'x' || x == b'p'
    then (if mod_ll
        then Option.map (λ ((n, rest) : ℕ × List Arg). rest) (pull_long args)
        else after_word)
    else if x == b'd'
    then after_word
    else if x == b'u'
    then after_word
    else if x == b'U'
    then after_word
    else if x == b'X'
    then after_word
    else some args

-- The directive that clears the modifiers.
abbrev pub clears : ℕ → Bool
clears x = x == b'x' || x == b'p'

-- The same arguments and modifiers.
record Same (p q : Printer) : Type 0 where
  pvar : q.pvar ≡ p.pvar
  mod_l : q.mod_l ≡ p.mod_l
  mod_ll : q.mod_ll ≡ p.mod_ll

-- After a directive there is no room, or the arguments and the modifiers are those that are left.
pub record Left (x : ℕ) (rest : List Arg) (p q : Printer) : Type 0 where
  pub pvar : q.pvar ≡ rest
  pub mod_l : q.mod_l ≡ (p.mod_l && not (clears x))
  pub mod_ll : q.mod_ll ≡ (p.mod_ll && not (clears x))

abbrev pub Went : ℕ → List Arg → Printer → Printer → Type 0
Went x rest p q = (q.l ≡ 0) ⊎ Left x rest p q

put_text-Same : (t : List ℕ) (p : Printer) → Same p (put_text t p)
unfolding put_text
put_text-Same [] p = record { pvar = refl; mod_l = refl; mod_ll = refl }
put_text-Same (x ∷ t) p = elim (Bool-cases (p.l == 0)) [
  | inl full ↦ rw full (record { pvar = refl; mod_l = refl; mod_ll = refl })
  | inr free ↦ rw free (
      let rest = put_text-Same t (record p { written = p.written ++ x ∷ []; l = p.l - 1 }) in
      record { pvar = rest.pvar; mod_l = rest.mod_l; mod_ll = rest.mod_ll })
]

put_digits-Same : (ds : List ℕ) (p : Printer) → Same p (put_digits ds p)
unfolding put_digits
put_digits-Same [] p = record { pvar = refl; mod_l = refl; mod_ll = refl }
put_digits-Same (x ∷ ds) p = elim (Bool-cases (p.l - 1 == 0)) [
  | inl full ↦ rw full (record { pvar = refl; mod_l = refl; mod_ll = refl })
  | inr free ↦ rw free (
      let rest = put_digits-Same ds (record p { written = p.written ++ x ∷ []; l = p.l - 1 }) in
      record { pvar = rest.pvar; mod_l = rest.mod_l; mod_ll = rest.mod_ll })
]

print_signed-Same : (n : ℕ) (p : Printer) → Same p (print_signed n p)
unfolding print_signed print_unsigned
print_signed-Same n p =
    let minus : Printer = record p { written = p.written ++ b'-' ∷ []; l = p.l - 1 } in
    elim (Bool-cases (ltb n 0x80000000)) [
      | inl low ↦ rw low (put_digits-Same (digits 10 n []) p)
      | inr high ↦ rw high (elim (Bool-cases (p.l - 1 == 0)) [
        | inl full ↦ rw full (record { pvar = refl; mod_l = refl; mod_ll = refl })
        | inr free ↦ rw free (
            let rest = put_digits-Same (digits 10 (0x100000000 - n) []) minus in
            record { pvar = rest.pvar; mod_l = rest.mod_l; mod_ll = rest.mod_ll })
      ])
    ]

module _ (x : ℕ) (rest : List Arg) (p : Printer) where
  abbrev after : Printer
  after = record p { pvar = rest }

  kept : (q : Printer) → clears x ≡ false → Same after q → Went x rest p q
  kept q other same = inr (record {
    pvar = same.pvar;
    mod_l = ground (arith, same.mod_l, other);
    mod_ll = ground (arith, same.mod_ll, other);
  })

  cleared :
      (q : Printer)
      → clears x ≡ true
      → q.pvar ≡ rest
      → q.mod_l ≡ false
      → q.mod_ll ≡ false
      → Went x rest p q
  cleared q hex a b c =
      inr (record { pvar = a; mod_l = ground (arith, b, hex); mod_ll = ground (arith, c, hex) })

  text_read :
      (P : Printer → Type 0) (args : List Arg) (f : List ℕ × Printer → Printer)
      → p.pvar ≡ args
      → Option.map (λ ((t, more) : List ℕ × List Arg). more) (pull_text args) ≡ some rest
      → ((t : List ℕ) → P (f (t, after)))
      → Returns P (Option.map f (next_text p))
  unfolding next_text pull_text
  text_read P [] f is h = λ all. ground (arith, h)
  text_read P (Arg.word n ∷ more) f is h = λ all. ground (arith, h)
  text_read P (Arg.long_word n ∷ more) f is h = λ all. ground (arith, h)
  text_read P (Arg.text t ∷ more) f is h =
      let same : more ≡ rest = ground (arith, h) in λ all. rw (is, same) (all t)

  word_read :
      (P : Printer → Type 0) (args : List Arg) (f : ℕ × Printer → Printer)
      → p.pvar ≡ args
      → Option.map (λ ((n, more) : ℕ × List Arg). more) (pull_word args) ≡ some rest
      → ((n : ℕ) → P (f (n, after)))
      → Returns P (Option.map f (next_word p))
  unfolding next_word pull_word
  word_read P [] f is h = λ all. ground (arith, h)
  word_read P (Arg.text t ∷ more) f is h = λ all. ground (arith, h)
  word_read P (Arg.long_word n ∷ more) f is h = λ all. ground (arith, h)
  word_read P (Arg.word n ∷ more) f is h =
      let same : more ≡ rest = ground (arith, h) in λ all. rw (is, same) (all n)

  long_read :
      (P : Printer → Type 0) (args : List Arg) (f : ℕ × Printer → Printer)
      → p.pvar ≡ args
      → Option.map (λ ((n, more) : ℕ × List Arg). more) (pull_long args) ≡ some rest
      → ((n : ℕ) → P (f (n, after)))
      → Returns P (Option.map f (next_long p))
  unfolding next_long pull_long
  long_read P [] f is h = λ all. ground (arith, h)
  long_read P (Arg.text t ∷ more) f is h = λ all. ground (arith, h)
  long_read P (Arg.word n ∷ more) f is h = λ all. ground (arith, h)
  long_read P (Arg.long_word n ∷ more) f is h =
      let same : more ≡ rest = ground (arith, h) in λ all. rw (is, same) (all n)

  -- A directive that reads a word and prints it.
  word_directive :
      (f : ℕ → Printer → Printer)
      → clears x ≡ false
      → ((n : ℕ) (q : Printer) → Same q (f n q))
      → Option.map (λ ((n, more) : ℕ × List Arg). more) (pull_word p.pvar) ≡ some rest
      → Returns (Went x rest p) (Option.map (λ ((n, q) : ℕ × Printer). f n q) (next_word p))
  word_directive f other same h =
      word_read (Went x rest p) p.pvar _ refl h (λ n. kept (f n after) other (same n after))

  short_directive :
      (n : ℕ)
      → clears x ≡ false
      → Option.map (λ ((n, more) : ℕ × List Arg). more) (pull_word p.pvar) ≡ some rest
      → Returns (Went x rest p) (print_short n p)
  unfolding print_short put_block
  short_directive n other h =
      Returns-test (Went x rest p) (ltb p.l n) _ _ (λ full. inl refl)
        (λ room.
          word_directive (λ u. put_block n (hex_digits n u [])) other
            (λ u q. record { pvar = refl; mod_l = refl; mod_ll = refl }) h)

  hex_directive :
      clears x ≡ true
      → (if p.mod_ll
          then Option.map (λ ((n, more) : ℕ × List Arg). more) (pull_long p.pvar)
          else Option.map (λ ((n, more) : ℕ × List Arg). more) (pull_word p.pvar))
        ≡ some rest
      → Returns (Went x rest p) (print_hex p)
  unfolding print_hex put_block
  hex_directive hex h =
      Returns-test (Went x rest p) p.mod_ll _ _
        (λ long.
          Returns-test (Went x rest p) (ltb p.l 16) _ _ (λ full. inl refl)
            (λ room.
              long_read (Went x rest p) p.pvar _ refl (rw long at h)
                (λ n. cleared _ hex refl refl refl)))
        (λ short.
          Returns-test (Went x rest p) (ltb p.l 8) _ _ (λ full. inl refl)
            (λ room.
              word_read (Went x rest p) p.pvar _ refl (rw short at h)
                (λ n. cleared _ hex refl refl refl)))

  -- A directive whose argument is there ends.
  pub directive-Went : takes x p.mod_ll p.pvar ≡ some rest → Returns (Went x rest p) (directive x p)
  unfolding directive print_char print_unsigned
  directive-Went h =
      let W = Went x rest p in
      Returns-test W (x == b's') _ _
        (λ s.
          text_read (Went x rest p) p.pvar _ refl (rw s at h)
            (λ t. kept (put_text t after) (ground (arith, s)) (put_text-Same t after)))
        (λ s.
          Returns-test W (x == b'c') _ _
            (λ c.
              word_directive _ (ground (arith, c))
                (λ n q. record { pvar = refl; mod_l = refl; mod_ll = refl }) (rw (s, c) at h))
            (λ c.
              Returns-test W (x == b'S') _ _
                (λ S. short_directive 4 (ground (arith, S)) (rw (s, c, S) at h))
                (λ S.
                  Returns-test W (x == b'x' || x == b'p') _ _
                    (λ hex. hex_directive hex (rw (s, c, S, hex) at h))
                    (λ hex.
                      Returns-test W (x == b'd') _ _
                        (λ d.
                          word_directive print_signed hex print_signed-Same
                            (rw (s, c, S, hex, d) at h))
                        (λ d.
                          Returns-test W (x == b'u') _ _
                            (λ u.
                              word_directive print_unsigned hex
                                (λ n. put_digits-Same (digits 10 n []))
                                (rw (s, c, S, hex, d, u) at h))
                            (λ u.
                              Returns-test W (x == b'U') _ _
                                (λ U.
                                  word_directive (λ n. put_digits (last_four n)) hex
                                    (λ n. put_digits-Same (last_four n))
                                    (rw (s, c, S, hex, d, u, U) at h))
                                (λ U.
                                  Returns-test W (x == b'X') _ _
                                    (λ X.
                                      short_directive 2 hex (rw (s, c, S, hex, d, u, U, X) at h))
                                    (λ X.
                                      let same : p.pvar ≡ rest =
                                        ground (arith, rw (s, c, S, hex, d, u, U, X) at h) in
                                      kept _ hex (record {
                                        pvar = same;
                                        mod_l = refl;
                                        mod_ll = refl;
                                      })))))))))
