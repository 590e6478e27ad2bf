-- ===== src/Vfs/Path/Plain.antt =====
-- Paths without a component that begins with a `.`, through blt/srv/vfs/path.c.
use os_open_blt.Base.{
  ℕ, zero, suc, ◌≤◌, ◌<◌, ◌≡◌, refl, sym, ◌∙◌, ap, Bool, true, false, some, List, [], ◌∷◌, ◌++◌,
  ◌==◌, ◌&&◌, not, ◌||◌, if◌then◌else◌, length, reverse, arith, Bool-cases, inl, inr,
}
use mathlib.Core.Option
use mathlib.Core.List.{reverse_aux, reverse_aux-append, reverse-append, reverse-reverse}
use os_open_blt.Vfs.Path.{copy_name, component_step, concat_loop, finish, path_concat}

-- No component begins with a `.`; the flag is whether a component begins here.
unfoldable pub plain : Bool → List ℕ → Bool
plain start [] = true
plain start (x ∷ t) =
    let here = plain true t in
    let on = plain false t in if x == b'/' then here else ((not start || not (x == b'.')) && on)

-- Bytes that are built, the last of them first, and bytes to add.
abbrev added : List ℕ × List ℕ → List ℕ
added (built, t) = reverse_aux t built

-- What a step over bytes leaves for the next one.
abbrev PassedOn : List ℕ → List ℕ → List ℕ × List ℕ → Type 0
PassedOn built t s =
    (added s ≡ added (built, t)) × (length s.1 ≤ length t) × (plain true s.1 ≡ true)

copy_name-PassedOn :
    (built t : List ℕ) → plain false t ≡ true → PassedOn built t (copy_name built t)
unfolding copy_name plain
copy_name-PassedOn built [] is = (refl, omega arith, refl)
copy_name-PassedOn built (x ∷ t) is = elim (Bool-cases (x == b'/')) [
  | inl slash ↦ rw slash (refl, omega arith, ground (arith, is, slash))
  | inr other ↦
      let (same, shorter, starts) = copy_name-PassedOn (x ∷ built) t (ground (arith, is, other)) in
      rw other (same, omega (arith, shorter), starts)
]

-- A round of the loop takes a byte.
component_step-PassedOn :
    (built : List ℕ) (x : ℕ) (t : List ℕ)
    → plain true (x ∷ t) ≡ true
    → (s : List ℕ × List ℕ) × (component_step built x t ≡ some s) × PassedOn (x ∷ built) t s
unfolding component_step plain copy_name
component_step-PassedOn built x t is = elim (Bool-cases (x == b'/')) [
  | inl slash ↦ ((x ∷ built, t), rw slash refl, (refl, omega arith, ground (arith, is, slash)))
  | inr other ↦
      let no_dot : (x == b'.') ≡ false = ground (arith, is, other) in
      (
        copy_name (x ∷ built) t,
        rw (other, no_dot) refl,
        copy_name-PassedOn (x ∷ built) t (ground (arith, is, other)),
      )
]

concat_loop-plain :
    (fuel : ℕ) (built t : List ℕ)
    → length t < fuel
    → plain true t ≡ true
    → concat_loop fuel built t ≡ some (added (built, t))
unfolding concat_loop Option.bind
concat_loop-plain zero built t enough is = ground (arith, enough)
concat_loop-plain (suc fuel) built [] enough is = refl
concat_loop-plain (suc fuel) built (x ∷ t) enough is =
    let ((built', t'), step, (same, shorter, starts)) = component_step-PassedOn built x t is in
    rw step
      (concat_loop-plain fuel built' t' (omega (arith, shorter, enough)) starts ∙ ap some same)

not_empty : List ℕ → Bool
not_empty [] = false
not_empty (x ∷ xs) = true

reverse_aux-not_empty : (q : List ℕ) (y : ℕ) (r : List ℕ) → not_empty (reverse_aux q (y ∷ r)) ≡ true
unfolding not_empty
reverse_aux-not_empty [] y r = refl
reverse_aux-not_empty (z ∷ q) y r = reverse_aux-not_empty q z (y ∷ r)

finish-not_empty :
    (x : ℕ) (r : List ℕ)
    → not_empty r ≡ true
    → finish (x ∷ r) ≡ some (reverse (if x == b'/' then r else x ∷ r))
unfolding finish not_empty
finish-not_empty x [] is = ground (arith, is)
finish-not_empty x (y ∷ r) is = refl

-- A text of which the last byte is a `/` or not, turned back.
reverse-last :
    (p : List ℕ) (x : ℕ)
    → reverse (if x == b'/' then reverse p else x ∷ reverse p)
      ≡ (if x == b'/' then p else p ++ x ∷ [])
reverse-last p x = elim (Bool-cases (x == b'/')) [
  | inl slash ↦ rw slash (reverse-reverse p)
  | inr other ↦
      rw other (ap reverse (sym (reverse-append p (x ∷ []))) ∙ reverse-reverse (p ++ x ∷ []))
]

concat_loop-reverse :
    (s t : List ℕ)
    → plain true t ≡ true
    → concat_loop (suc (length t)) (reverse s) t ≡ some (reverse (s ++ t))
concat_loop-reverse s t is =
    concat_loop-plain (suc (length t)) (reverse s) t (omega arith) is
    ∙ ap some (sym (reverse_aux-append s t []))

-- Where no component of `t` begins with a `.` and the text `s ++ t` has two bytes or more, `path_concat` gives
-- that text, less its last byte if that is a `/`.
pub path_concat-plain :
    (s t q : List ℕ) (y x : ℕ)
    → plain true t ≡ true
    → s ++ t ≡ (y ∷ q) ++ x ∷ []
    → path_concat s t ≡ some (if x == b'/' then y ∷ q else (y ∷ q) ++ x ∷ [])
unfolding path_concat Option.bind
path_concat-plain s t q y x is whole =
    let p : List ℕ = y ∷ q in
    let back : reverse (s ++ t) ≡ x ∷ reverse p = ap reverse whole ∙ reverse-append p (x ∷ []) in
    rw (concat_loop-reverse s t is, back)
      (finish-not_empty x (reverse p) (reverse_aux-not_empty q y []) ∙ ap some (reverse-last p x))
