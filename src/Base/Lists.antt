-- ===== src/Base/Lists.antt =====
-- Lists measured and indexed by native numbers, under the library's names, membership by a Boolean
-- test, lists without repetition, and memory as a function from addresses.
use Prim.Native.Nat.{ℕ, zero, suc, ◌+◌, min}
use mathlib.Core.Path.{◌≡◌, refl, subst}
use mathlib.Core.Bool.{Bool, true, false, ◌&&◌, ◌||◌, or_assoc}
use mathlib.Core.List.{List, [], ◌∷◌, ◌++◌}
use mathlib.Core.Option.{Option, none, some}
use native.Mathlib.Omega.{arith}
use Prim.{⊥}
use mathlib.Core.Option
use os_open_blt.Base.Tests.{leb, ltb, ◌==◌, if◌then◌else◌}

module _ {ℓ} {A : Type ℓ} where
  abbrev pub length : List A → ℕ
  length [] = 0
  length (x ∷ xs) = suc (length xs)

  abbrev pub get_or : List A → ℕ → A → A
  get_or [] i d = d
  get_or (x ∷ xs) zero d = x
  get_or (x ∷ xs) (suc i) d = get_or xs i d

  abbrev pub take : ℕ → List A → List A
  take zero xs = []
  take (suc n) [] = []
  take (suc n) (x ∷ xs) = x ∷ take n xs

  abbrev pub drop : ℕ → List A → List A
  drop zero xs = xs
  drop (suc n) [] = []
  drop (suc n) (x ∷ xs) = drop n xs

  pub length-append : (xs ys : List A) → length (xs ++ ys) ≡ length xs + length ys
  length-append [] ys = omega arith
  length-append (x ∷ xs) ys = omega (arith, length-append xs ys)

  pub length-take : (n : ℕ) (xs : List A) → length (take n xs) ≡ min n (length xs)
  length-take zero xs = omega arith
  length-take (suc n) [] = omega arith
  length-take (suc n) (x ∷ xs) = omega (arith, length-take n xs)

  -- One word of memory, or one field of an object, is written.
  unfoldable pub update : (ℕ → A) → ℕ → A → ℕ → A
  update f a v x = if x == a then v else f x

abbrev pub mem : ℕ → List ℕ → Bool
mem a [] = false
mem a (x ∷ xs) = (a == x) || mem a xs

abbrev pub Distinct : List ℕ → Type 0
Distinct [] = Unit {0}
Distinct (x ∷ xs) = (mem x xs ≡ false) × Distinct xs

pub mem-append : (a : ℕ) (xs ys : List ℕ) → mem a (xs ++ ys) ≡ (mem a xs || mem a ys)
mem-append a [] ys = refl
mem-append a (x ∷ xs) ys = rw (mem-append a xs ys, or_assoc)

-- The result is there, and has the property.
abbrev pub Returns : {A : Type 0} → (A → Type 0) → Option A → Type 0
Returns P none = ⊥
Returns P (some a) = P a

pub Returns-mono :
    {A : Type 0} {P Q : A → Type 0} (o : Option A)
    → ((a : A) → P a → Q a)
    → Returns P o
    → Returns Q o
Returns-mono none f p = p
Returns-mono (some a) f p = f a p

pub Returns-map :
    {A B : Type 0} {P : A → Type 0} (o : Option A) (Q : B → Type 0) (f : A → B)
    → ((a : A) → P a → Q (f a))
    → Returns P o
    → Returns Q (Option.map f o)
Returns-map none Q f g p = p
Returns-map (some a) Q f g p = g a p

pub Returns-bind :
    {A B : Type 0} {P : A → Type 0} (o : Option A) (Q : B → Type 0) (f : A → Option B)
    → ((a : A) → P a → Returns Q (f a))
    → Returns P o
    → Returns Q (Option.bind o f)
unfolding Option.bind
Returns-bind none Q f g p = p
Returns-bind (some a) Q f g p = g a p

-- `n` numbers from `s` on.
abbrev pub upto : ℕ → ℕ → List ℕ
upto s zero = []
upto s (suc n) = s ∷ upto (s + 1) n

pub mem-upto : (j s n : ℕ) → mem j (upto s n) ≡ (leb s j && ltb j (s + n))
mem-upto j s zero = ground arith
mem-upto j s (suc n) = ground (arith, mem-upto j (s + 1) n)

pub Distinct-upto : (s n : ℕ) → Distinct (upto s n)
Distinct-upto s zero = tt
Distinct-upto s (suc n) = (ground (arith, mem-upto s (s + 1) n), Distinct-upto (s + 1) n)

abbrev pub replicate {ℓ} : {A : Type ℓ} → ℕ → A → List A
replicate zero a = []
replicate (suc n) a = a ∷ replicate n a

-- A property of both branches holds of the conditional.
pub Returns-if :
    {A : Type 0} (P : A → Type 0) (b : Bool) (x y : Option A)
    → Returns P x
    → Returns P y
    → Returns P (if b then x else y)
Returns-if P true x y p q = p
Returns-if P false x y p q = q

-- The same, with what the test found.
pub Returns-test :
    {A : Type 0} (P : A → Type 0) (b : Bool) (x y : Option A)
    → (b ≡ true → Returns P x)
    → (b ≡ false → Returns P y)
    → Returns P (if b then x else y)
Returns-test P true x y p q = p refl
Returns-test P false x y p q = q refl

-- A property of what both cases of an option give.
pub Returns-elim :
    {A B : Type 0} (P : B → Type 0) (o : Option A) (x : Option B) (f : A → Option B)
    → Returns P x
    → ((a : A) → o ≡ some a → Returns P (f a))
    → Returns P (elim o [ none ↦ x | some a ↦ f a ])
Returns-elim P none x f p q = p
Returns-elim P (some a) x f p q = q a refl

-- The result, if it is there, has the property.
abbrev pub IfReturns : {A : Type 0} → (A → Type 0) → Option A → Type 0
IfReturns P none = Unit {0}
IfReturns P (some a) = P a

pub IfReturns-bind :
    {A B : Type 0} (Q : B → Type 0) (o : Option A) (f : A → Option B)
    → ((a : A) → o ≡ some a → IfReturns Q (f a))
    → IfReturns Q (Option.bind o f)
unfolding Option.bind
IfReturns-bind Q none f q = tt
IfReturns-bind Q (some a) f q = q a refl

pub IfReturns-some :
    {A : Type 0} (P : A → Type 0) (o : Option A) (a : A) → o ≡ some a → IfReturns P o → P a
IfReturns-some P o a is p = subst (λ x. IfReturns P x) is p

pub IfReturns-Returns :
    {A : Type 0} (P : A → Type 0) (o : Option A) (a : A) → o ≡ some a → IfReturns P o → Returns P o
IfReturns-Returns P none a is p = ground (arith, is)
IfReturns-Returns P (some b) a is p = p

pub IfReturns-then :
    {A B : Type 0} {P : A → Type 0} (Q : B → Type 0) (o : Option A) (f : A → Option B)
    → IfReturns P o
    → ((a : A) → P a → IfReturns Q (f a))
    → IfReturns Q (Option.bind o f)
unfolding Option.bind
IfReturns-then Q none f p q = tt
IfReturns-then Q (some a) f p q = q a p

pub IfReturns-map :
    {A B : Type 0} (Q : B → Type 0) (o : Option A) (f : A → B)
    → ((a : A) → Q (f a))
    → IfReturns Q (Option.map f o)
IfReturns-map Q none f q = tt
IfReturns-map Q (some a) f q = q a

pub IfReturns-if :
    {A : Type 0} (P : A → Type 0) (b : Bool) (x y : Option A)
    → IfReturns P x
    → IfReturns P y
    → IfReturns P (if b then x else y)
IfReturns-if P true x y p q = p
IfReturns-if P false x y p q = q

pub IfReturns-test :
    {A : Type 0} (P : A → Type 0) (b : Bool) (x y : Option A)
    → (b ≡ true → IfReturns P x)
    → (b ≡ false → IfReturns P y)
    → IfReturns P (if b then x else y)
IfReturns-test P true x y p q = p refl
IfReturns-test P false x y p q = q refl

pub IfReturns-elim :
    {A B : Type 0} (P : B → Type 0) (o : Option A) (x : Option B) (f : A → Option B)
    → IfReturns P x
    → ((a : A) → o ≡ some a → IfReturns P (f a))
    → IfReturns P (elim o [ none ↦ x | some a ↦ f a ])
IfReturns-elim P none x f p q = p
IfReturns-elim P (some a) x f p q = q a refl

pub IfReturns-mapped :
    {A B : Type 0} {P : A → Type 0} (Q : B → Type 0) (o : Option A) (f : A → B)
    → IfReturns P o
    → ((a : A) → P a → Q (f a))
    → IfReturns Q (Option.map f o)
IfReturns-mapped Q none f p q = tt
IfReturns-mapped Q (some a) f p q = q a p
