-- ===== src/Netboot/Console/Typed.antt =====
-- What a key does to the line of the console of blt/netboot/netboot.c.
use os_open_blt.Base.{
  ℕ, zero, suc, ◌+◌, ◌-◌, ◌≤◌, ◌<◌, ◌≡◌, refl, ◌∙◌, true, false, List, [], ◌∷◌, ◌++◌, ◌==◌, ltb,
  leb, if◌then◌else◌, get_or, length, length-append, update, arith, Bool-cases, inl, inr, ◌&&◌,
}
use os_open_blt.Netboot.Console.{prompt, Settings, Line, blank, put, newline, keypress}

-- A text without its last byte.
unfoldable pub init : List ℕ → List ℕ
init [] = []
init (x ∷ []) = []
init (x ∷ y ∷ xs) = x ∷ init (y ∷ xs)

-- What a key makes of the text that is typed: ESC empties it, BS takes the last byte off, and another key is put
-- behind it, up to 70 of them.
unfoldable pub edit : List ℕ → ℕ → List ℕ
edit typed key =
    if key == 27
    then []
    else (if key == 8
        then init typed
        else (if ltb (length typed) 70 then typed ++ key ∷ [] else typed))

length-init : (xs : List ℕ) → length (init xs) ≡ length xs - 1
unfolding init
length-init [] = refl
length-init (x ∷ []) = refl
length-init (x ∷ y ∷ xs) = omega (arith, length-init (y ∷ xs))

get_or-init :
    (xs : List ℕ) (i d : ℕ)
    → get_or (init xs) i d ≡ (if suc i == length xs then d else get_or xs i d)
unfolding init
get_or-init [] i d = ground arith
get_or-init (x ∷ []) zero d = refl
get_or-init (x ∷ []) (suc i) d = ground arith
get_or-init (x ∷ y ∷ xs) zero d = ground arith
get_or-init (x ∷ y ∷ xs) (suc i) d = get_or-init (y ∷ xs) i d ∙ ground arith

get_or-append :
    (xs : List ℕ) (k i d : ℕ)
    → get_or (xs ++ k ∷ []) i d ≡ (if i == length xs then k else get_or xs i d)
get_or-append [] k zero d = refl
get_or-append [] k (suc i) d = ground arith
get_or-append (x ∷ xs) k zero d = ground arith
get_or-append (x ∷ xs) k (suc i) d = get_or-append xs k i d ∙ ground arith

-- The line shows a text.
pub record IsTyped (typed : List ℕ) (line : Line) : Type 0 where
  pub at_end : line.lp ≡ 9 + length typed
  pub fits : length typed ≤ 70
  pub reads : (i : ℕ) → i < 70 → line.linebuf (9 + i) ≡ get_or typed i b' '
  pub ends : line.linebuf 79 ≡ 0

blank-reads :
    (n i j : ℕ) (b : ℕ → ℕ) → blank n i b j ≡ (if leb i j && ltb j (i + n) then b' ' else b j)
unfolding blank update
blank-reads zero i j b = ground arith
blank-reads (suc n) i j b = blank-reads n (i + 1) j (update b i b' ') ∙ ground arith

cleared :
    (line : Line)
    → (line.linebuf 79 ≡ 0)
    → IsTyped [] (record line { linebuf = blank 70 9 line.linebuf; lp = 9 })
cleared line end = record {
  at_end = refl;
  fits = omega arith;
  reads = λ i small. blank-reads 70 9 (9 + i) line.linebuf ∙ ground (arith, small);
  ends = blank-reads 70 9 79 line.linebuf ∙ end;
}

pub newline-IsTyped : (line : Line) → IsTyped [] (newline line)
unfolding newline update
newline-IsTyped line = record {
  at_end = refl;
  fits = omega arith;
  reads = λ i small.
      (let other : (9 + i == 79) ≡ false = ground (arith, small) in
        rw other (blank-reads 70 9 (9 + i) (put prompt 0 line.linebuf) ∙ ground (arith, small)));
  ends = refl;
}

back-IsTyped :
    (typed : List ℕ) (line : Line)
    → IsTyped typed line
    → IsTyped (init typed) (
        if ltb 9 line.lp
        then record line { linebuf = update line.linebuf (line.lp - 1) b' '; lp = line.lp - 1 }
        else line)
unfolding update
back-IsTyped typed line ok = elim (Bool-cases (ltb 9 line.lp)) [
  | inl some_left ↦ rw some_left (record {
    at_end = ground (arith, ok.at_end, some_left, length-init typed);
    fits = ground (arith, ok.fits, length-init typed);
    reads =
        λ i small. ground (arith, ok.reads i small, ok.at_end, some_left, get_or-init typed i b' ');
    ends = ground (arith, ok.ends, ok.at_end, ok.fits);
  })
  | inr none_left ↦ rw none_left (record {
    at_end = ground (arith, ok.at_end, none_left, length-init typed);
    fits = ground (arith, ok.fits, length-init typed);
    reads =
        λ i small. ground (arith, ok.reads i small, ok.at_end, none_left, get_or-init typed i b' ');
    ends = ok.ends;
  })
]

type-IsTyped :
    (key : ℕ) (typed : List ℕ) (line : Line)
    → IsTyped typed line
    → IsTyped (if ltb (length typed) 70 then typed ++ key ∷ [] else typed) (
        if ltb line.lp 79
        then record line { linebuf = update line.linebuf line.lp key; lp = line.lp + 1 }
        else line)
unfolding update
type-IsTyped key typed line ok = elim (Bool-cases (ltb (length typed) 70)) [
  | inl room ↦
      let room' : ltb line.lp 79 ≡ true = ground (arith, room, ok.at_end) in
      rw (room, room')
        (record {
          at_end = ground (arith, ok.at_end, length-append typed (key ∷ []));
          fits = ground (arith, room, length-append typed (key ∷ []));
          reads = λ i small.
              ground (arith, ok.reads i small, ok.at_end, get_or-append typed key i b' ');
          ends = ground (arith, ok.ends, ok.at_end, room);
        })
  | inr full ↦
      let full' : ltb line.lp 79 ≡ false = ground (arith, full, ok.at_end) in rw (full, full') ok
]

pub keypress-IsTyped :
    (key : ℕ) (typed : List ℕ) (line : Line) (set : Settings)
    → (key == 13) ≡ false
    → IsTyped typed line
    → IsTyped (edit typed key) (keypress key line set).1
unfolding keypress edit
keypress-IsTyped key typed line set other ok = elim (Bool-cases (key == 27)) [
  | inl escape ↦ rw escape (cleared line ok.ends)
  | inr more ↦
      rw (more, other)
        (elim (Bool-cases (key == 8)) [
          | inl back ↦ rw back (back-IsTyped typed line ok)
          | inr visible ↦ rw visible (type-IsTyped key typed line ok)
        ])
]
