-- ===== src/Console/Ansi/Print.antt =====
-- What printable bytes put on the screen of blt/srv/console2/vt100.c.
use mathlib.Core.Option
use os_open_blt.Base.{
  ℕ, ◌+◌, ◌-◌, ◌*◌, ◌<◌, ◌≤◌, ◌≡◌, refl, false, ◌&&◌, leb, ltb, ◌==◌, if◌then◌else◌, some, ap, List,
  [], ◌∷◌, get_or, length, arith, Returns, Returns-mono, update,
}
use os_open_blt.Console.Screen.{Screen, Mode, plain, loc_in_virtscreen, num_cells, change_character}
use os_open_blt.Console.Screen.Valid.{IsValid, IsValid-same, loc-lt}
use os_open_blt.Console.Ansi.{
  std_interpret_char, put_char, interpret, char_to_virtscreen, send, vputs,
}

-- The byte is no control byte.
abbrev pub Printable : List ℕ → Type 0
Printable [] = Unit {0}
Printable (c ∷ cs) = (32 ≤ c) × Printable cs

-- The place has the byte of the text that was written to it, and its old cell if none was.
abbrev pub printed : List ℕ → Screen → ℕ → ℕ
printed cs s p =
    let at = loc_in_virtscreen s s.ypos s.xpos in
    if leb at p && ltb p (at + length cs) then get_or cs (p - at) 0 + s.attrib * 256 else s.cells p

-- The text stands from where the cursor was, and the cursor behind it, on the same line.
pub record Printed (cs : List ℕ) (s s1 : Screen) : Type 0 where
  pub cells_now : (p : ℕ) → s1.cells p ≡ printed cs s p
  pub x : s1.xpos ≡ s.xpos + length cs
  pub y : s1.ypos ≡ s.ypos
  pub mode : s1.next_char_send ≡ plain

typed : ℕ → Screen → Screen
typed c s = record s {
  cells = update s.cells (loc_in_virtscreen s s.ypos s.xpos) (c + s.attrib * 256);
  xpos = s.xpos + 1;
}

put_char-typed :
    {rows columns : ℕ} (c : ℕ) (s : Screen)
    → IsValid rows columns s
    → s.xpos + 1 < s.columns
    → put_char c s ≡ some (typed c s)
unfolding put_char change_character typed
put_char-typed c s ok narrow =
    let within : leb (num_cells s) (loc_in_virtscreen s s.ypos s.xpos) ≡ false =
      ground (arith, loc-lt s.ypos s.xpos s.rows s.columns ok.y_low ok.x_low) in
    let more : leb s.columns (s.xpos + 1) ≡ false = ground arith in rw (within, more) refl

std_interpret_char-printable : (c : ℕ) (s : Screen) → 32 ≤ c → std_interpret_char c s ≡ put_char c s
unfolding std_interpret_char
std_interpret_char-printable c s no_control = ground arith

char_to_virtscreen-plain :
    (c : ℕ) (s : Screen)
    → s.next_char_send ≡ plain
    → char_to_virtscreen c s ≡ std_interpret_char c s
unfolding char_to_virtscreen interpret
char_to_virtscreen-plain c s mode = ap (λ (m : Mode). interpret m c s) mode

send-printable :
    {rows columns : ℕ} (c : ℕ) (s : Screen)
    → IsValid rows columns s
    → s.next_char_send ≡ plain
    → s.xpos + 1 < s.columns
    → 32 ≤ c
    → send c s ≡ some (typed c s)
unfolding send Option.bind
send-printable c s ok mode narrow no_control =
    let no_feed : (c == 10) ≡ false = ground arith in
    rw
      (
        char_to_virtscreen-plain c s mode,
        std_interpret_char-printable c s no_control,
        put_char-typed c s ok narrow,
        no_feed,
      )
      refl

typed-IsValid :
    {rows columns : ℕ} (c : ℕ) (s : Screen)
    → IsValid rows columns s
    → s.xpos + 1 < s.columns
    → IsValid rows columns (typed c s)
unfolding typed
typed-IsValid c s ok narrow = IsValid-same s _ ok refl refl narrow ok.y_low refl refl

Printed-typed :
    (c : ℕ) (cs : List ℕ) (s s1 : Screen) → Printed cs (typed c s) s1 → Printed (c ∷ cs) s s1
unfolding typed update
Printed-typed c cs s s1 rest = record {
  cells_now = λ p. ground (arith, rest.cells_now p);
  x = omega (arith, rest.x);
  y = rest.y;
  mode = rest.mode;
}

-- On a valid screen with no escape sequence begun, a text of printable bytes that fits in the line of the
-- cursor, less its last column, is written from the cursor on: see `Printed`.
pub vputs-Printed :
    (rows columns : ℕ) (cs : List ℕ) (s : Screen)
    → IsValid rows columns s
    → s.next_char_send ≡ plain
    → s.xpos + length cs < s.columns
    → Printable cs
    → Returns (Printed cs s) (vputs cs s)
unfolding vputs Option.bind typed
vputs-Printed rows columns [] s ok mode room no_control = record {
  cells_now = λ p. ground arith;
  x = omega arith;
  y = refl;
  mode = mode;
}
vputs-Printed rows columns (c ∷ cs) s ok mode room no_control =
    rw (send-printable c s ok mode (omega arith) no_control.0) (
      Returns-mono (vputs cs (typed c s)) (λ s1 rest. Printed-typed c cs s s1 rest)
        (vputs-Printed rows columns cs (typed c s) (typed-IsValid c s ok (omega arith)) mode
          (omega arith) no_control.1))
