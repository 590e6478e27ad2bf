-- ===== src/Console/Ansi/Tests.antt =====
-- The theorems on blt/srv/console2/vt100.c at concrete screens.
use mathlib.Core.Option
use os_open_blt.Base.{ℕ, ◌≡◌, refl, true, false, none, List, [], ◌∷◌, arith, Returns}
use os_open_blt.Console.Screen.{Screen, plain, reading}
use os_open_blt.Console.Screen.Valid.{IsValid}
use os_open_blt.Console.Ansi.{
  char_to_virtscreen, vputs, send, interpret, std_interpret_char, std_interpret_ansi,
  special_reading_ansi, end_number, screen_command,
}
use os_open_blt.Console.Ansi.Valid.{regions_ok, vputs-IsValid}
use os_open_blt.Console.Ansi.Print.{Printed, vputs-Printed}
use os_open_blt.Console.Ansi.Region.{line_feed-region_below}

-- Four lines of eight cells, with the cursor in the last line.
abbrev screen : Screen
screen = record {
  rows = 4;
  columns = 8;
  cells = λ p. p;
  xpos = 2;
  ypos = 3;
  top_scroll = 1;
  bottom_scroll = 4;
  attrib = 7;
  old_attrib = 7;
  old_xpos = 0;
  old_ypos = 0;
  cur_ansi_number = 0;
  ansi_element = [];
  ansi_reading_number = false;
  next_char_send = plain;
}

screen-IsValid : IsValid 4 8 screen
screen-IsValid = record {
  height = refl;
  width = refl;
  x_low = omega arith;
  y_low = omega arith;
  region = omega arith;
  bottom = omega arith;
  small = omega arith;
}

-- ESC [ 2 r, where the region reaches to the last line.
abbrev request : List ℕ
request = 27 ∷ b'[' ∷ b'2' ∷ b'r' ∷ []

request-regions_ok : regions_ok request screen ≡ true
unfolding send Option.bind char_to_virtscreen interpret std_interpret_char std_interpret_ansi
    special_reading_ansi end_number screen_command
request-regions_ok = refl

vputs-IsValid_example : Returns (IsValid 4 8) (vputs request screen)
vputs-IsValid_example = vputs-IsValid request screen screen-IsValid request-regions_ok

vputs-Printed_example :
    Returns (Printed (b'o' ∷ b'k' ∷ []) screen) (vputs (b'o' ∷ b'k' ∷ []) screen)
vputs-Printed_example =
    vputs-Printed 4 8 (b'o' ∷ b'k' ∷ []) screen screen-IsValid refl (omega arith)
      (omega arith, (omega arith, tt))

-- After ESC [ 9 ; 20.
abbrev asked : Screen
asked = record screen {
  next_char_send = reading;
  ansi_element = 9 ∷ [];
  cur_ansi_number = 20;
  ansi_reading_number = true;
}

line_feed-region_below_example :
    Returns (λ s1. char_to_virtscreen 10 s1 ≡ none) (char_to_virtscreen b'r' asked)
unfolding end_number
line_feed-region_below_example =
    line_feed-region_below asked 9 20 refl refl (omega arith) (omega arith) (omega arith)
      (omega arith) refl
