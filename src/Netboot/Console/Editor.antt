-- ===== src/Netboot/Console/Editor.antt =====
-- The line that is typed on the console of blt/netboot/netboot.c.
use os_open_blt.Base.{
  ℕ, zero, suc, ◌+◌, ◌<◌, ◌≡◌, refl, ◌∙◌, ap, Bool, true, false, List, [], ◌∷◌, ◌++◌, ◌==◌,
  if◌then◌else◌, get_or, length, update, arith, not, ◌&&◌,
}
use os_open_blt.Netboot.Console.{Settings, command, Line, newline, text_at, keypress}
use os_open_blt.Netboot.Console.Typed.{init, edit, IsTyped, keypress-IsTyped, newline-IsTyped}

unfoldable pub edits : List ℕ → List ℕ → List ℕ
edits typed [] = typed
edits typed (key ∷ keys) = edits (edit typed key) keys

-- Neither a CR nor the end of a text.
unfoldable pub are_typed : List ℕ → Bool
are_typed [] = true
are_typed (key ∷ keys) = (not (key == 13) && not (key == 0)) && are_typed keys

unfoldable pub presses : List ℕ → Line → Settings → Line
presses [] line set = line
presses (key ∷ keys) line set = presses keys (keypress key line set).1 set

init-are_typed : (typed : List ℕ) → are_typed typed ≡ true → are_typed (init typed) ≡ true
unfolding init are_typed
init-are_typed [] ok = refl
init-are_typed (x ∷ []) ok = refl
init-are_typed (x ∷ y ∷ xs) ok = ground (arith, ok, init-are_typed (y ∷ xs) (ground (arith, ok)))

append-are_typed :
    (typed : List ℕ) (key : ℕ)
    → are_typed typed ≡ true
    → are_typed (key ∷ []) ≡ true
    → are_typed (typed ++ key ∷ []) ≡ true
unfolding are_typed
append-are_typed [] key ok one = one
append-are_typed (x ∷ typed) key ok one =
    ground (arith, ok, append-are_typed typed key (ground (arith, ok)) one)

edit-are_typed :
    (typed : List ℕ) (key : ℕ)
    → are_typed typed ≡ true
    → are_typed (key ∷ []) ≡ true
    → are_typed (edit typed key) ≡ true
unfolding edit are_typed
edit-are_typed typed key ok one =
    ground (arith, ok, init-are_typed typed ok, append-are_typed typed key ok one)

are_typed-cons :
    (key : ℕ) (keys : List ℕ)
    → are_typed (key ∷ keys) ≡ true
    → ((key == 13) ≡ false) × (are_typed (key ∷ []) ≡ true) × (are_typed keys ≡ true)
unfolding are_typed
are_typed-cons key keys ok = ground (arith, ok)

presses-IsTyped :
    (keys typed : List ℕ) (line : Line) (set : Settings)
    → are_typed keys ≡ true
    → are_typed typed ≡ true
    → IsTyped typed line
    → IsTyped (edits typed keys) (presses keys line set) × (are_typed (edits typed keys) ≡ true)
unfolding presses edits
presses-IsTyped [] typed line set ok ok' is = (is, ok')
presses-IsTyped (key ∷ keys) typed line set ok ok' is =
    let (other, one, more) = are_typed-cons key keys ok in
    presses-IsTyped keys (edit typed key) (keypress key line set).1 set more
      (edit-are_typed typed key ok' one) (keypress-IsTyped key typed line set other is)

text_at-typed :
    (typed : List ℕ) (n i : ℕ) (b : ℕ → ℕ)
    → length typed < n
    → ((j : ℕ) → j < length typed → b (i + j) ≡ get_or typed j b' ')
    → b (i + length typed) ≡ 0
    → are_typed typed ≡ true
    → text_at n i b ≡ typed
unfolding text_at are_typed
text_at-typed typed zero i b long reads end ok = ground (arith, long)
text_at-typed [] (suc n) i b long reads end ok =
    let first : b i ≡ 0 = ap b (omega arith) ∙ end in rw first refl
text_at-typed (x ∷ typed) (suc n) i b long reads end ok =
    let first : b i ≡ x = ap b (omega arith) ∙ reads 0 (omega arith) in
    let visible : (x == 0) ≡ false = ground (arith, ok) in
    rw (first, visible)
      (ap (λ xs. x ∷ xs)
        (text_at-typed typed n (i + 1) b (omega (arith, long))
          (λ j small. ap b (omega arith) ∙ reads (suc j) (omega (arith, small)))
          (ap b (omega arith) ∙ end) (ground (arith, ok))))

line_text :
    (typed : List ℕ) (line : Line)
    → IsTyped typed line
    → are_typed typed ≡ true
    → text_at 71 9 (update line.linebuf line.lp 0) ≡ typed
unfolding update
line_text typed line is ok =
    text_at-typed typed 71 9 (update line.linebuf line.lp 0) (let f = is.fits in omega (arith, f))
      (λ j small.
        ground (arith, is.reads j (let f = is.fits in omega (arith, f, small)), is.at_end, small))
      (ground (arith, is.at_end)) ok

pressed_ran :
    (ran : Bool × Settings) (x y : Line)
    → let pressed : Bool × Line × Settings =
        if ran.0 then (true, x, ran.1) else (false, y, ran.1) in
      (pressed.0 ≡ ran.0) × (pressed.2 ≡ ran.1)
pressed_ran (true, set) x y = (refl, refl)
pressed_ran (false, set) x y = (refl, refl)

-- Keys other than CR, typed on a new line, and then a CR run the text that ESC, BS and the other keys make of an empty
-- one: `keypress` returns what `command` returns for it, with the settings that it leaves.
pub keypress-command :
    (keys : List ℕ) (line : Line) (set : Settings)
    → are_typed keys ≡ true
    → let pressed = keypress 13 (presses keys (newline line) set) set in
      let ran = command (edits [] keys) set in (pressed.0 ≡ ran.0) × (pressed.2 ≡ ran.1)
unfolding keypress are_typed
keypress-command keys line set ok =
    let (is, ok') = presses-IsTyped keys [] (newline line) set ok refl (newline-IsTyped line) in
    let text : text_at 71 9
          (update (presses keys (newline line) set).linebuf (presses keys (newline line) set).lp 0)
        ≡ edits [] keys =
      line_text (edits [] keys) (presses keys (newline line) set) is ok' in
    rw text (
      pressed_ran (command (edits [] keys) set)
        (record (presses keys (newline line) set) {
          linebuf =
              update (presses keys (newline line) set).linebuf (presses keys (newline line) set).lp
                0;
        })
        (newline (record (presses keys (newline line) set) {
          linebuf =
              update (presses keys (newline line) set).linebuf (presses keys (newline line) set).lp
                0;
        })))
