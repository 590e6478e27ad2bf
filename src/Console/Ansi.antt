-- ===== src/Console/Ansi.antt =====
-- The interpretation of bytes by blt/srv/console2/vt100.c: `next_char_send` names the function that takes
-- the next one. `none` is a write outside the screen, or a number that overflows an `int`. `move_cursor` only tells the hardware.
pub mod Moves
pub mod Valid
pub mod Print
pub mod Region
pub mod Tests
use mathlib.Core.Option
use Prim.Native.Nat.{bit_and, bit_or}
use os_open_blt.Base.{
  ℕ, zero, suc, ◌+◌, ◌-◌, ◌*◌, ◌%◌, Bool, true, false, ◌&&◌, ◌||◌, Option, none, some, List, [],
  ◌∷◌, ◌++◌, ltb, leb, ◌==◌, if◌then◌else◌, get_or, length,
}
use os_open_blt.Base.Int.{ℤ, pos, negsuc, ◌-ℤ◌}
use os_open_blt.Console.Screen.{
  Screen, Mode, plain, escape, charset, reading, clear_virtscreen, clear_to_eol, position_console,
  delete_chars_in_line, scroll_virt_up_at_cursor, scroll_virtscreen, set_scroll_region,
  change_attribute, change_character,
}

abbrev next_char : Mode → Screen → Screen
next_char mode s = record s { next_char_send = mode }

-- `lines` times.
unfoldable scroll_lines : ℕ → Bool → Screen → Option Screen
scroll_lines zero dir s = some s
scroll_lines (suc lines) dir s =
    Option.bind (scroll_virt_up_at_cursor dir s) (scroll_lines lines dir)

-- The cursor goes down a line; at the end of the region that scrolls. For ESC D and ESC E.
unfoldable index : Screen → Option Screen
index s =
    if leb s.bottom_scroll (s.ypos + 1)
    then scroll_virtscreen s
    else some (record s { ypos = s.ypos + 1 })

-- For ESC M.
unfoldable reverse_index : Screen → Option Screen
reverse_index s =
    if leb s.ypos s.top_scroll
    then scroll_virt_up_at_cursor false s
    else some (record s { ypos = s.ypos - 1 })

unfoldable line_feed : Screen → Option Screen
line_feed s =
    let y = s.ypos + 1 in
    if leb s.bottom_scroll y
    then Option.map (λ (s1 : Screen). record s1 { xpos = 0 })
        (if y == s.bottom_scroll then scroll_virtscreen s else some s)
    else some (record s { ypos = y; xpos = 0 })

unfoldable put_char : ℕ → Screen → Option Screen
put_char ch s =
    Option.map
      (λ (s1 : Screen). record s1 {
        xpos = if leb s1.columns (s1.xpos + 1) then s1.columns - 1 else s1.xpos + 1;
      })
      (change_character ch s)

-- The bytes 27, 12, 13, 10, 9, 8 and 0 are special.
unfoldable std_interpret_char : ℕ → Screen → Option Screen
std_interpret_char ch s =
    if ch == 27
    then some (next_char escape s)
    else if ch == 12
    then clear_virtscreen 2 s
    else if ch == 13
    then some (record s { xpos = 0 })
    else if ch == 10
    then line_feed s
    else if ch == 9
    then some (position_console (pos s.ypos) (pos (s.xpos + (8 - s.xpos % 8))) false s)
    else if ch == 8
    then some (record s { xpos = if s.xpos == 0 then s.columns - 1 else s.xpos - 1 })
    else if ch == 0
    then some s
    else put_char ch s

-- The cases of `std_interpret_ansi` but those for `(`, `)` and `[`.
unfoldable escape_command : ℕ → Screen → Option Screen
escape_command ch s =
    if ch == b'7'
    then some (record s { old_attrib = s.attrib; old_xpos = s.xpos; old_ypos = s.ypos })
    else if ch == b'8'
    then (let s1 = change_attribute s.old_attrib s in
        some (position_console (pos s1.ypos) (pos s1.xpos) false s1))
    else if ch == b'E'
    then index (record s { xpos = 0 })
    else if ch == b'D'
    then index s
    else if ch == b'M'
    then reverse_index s
    else some s

unfoldable std_interpret_ansi : ℕ → Screen → Option Screen
std_interpret_ansi ch s =
    if ch == b'(' || ch == b')'
    then some (next_char charset s)
    else if ch == b'['
    then some (record s {
      cur_ansi_number = 0;
      ansi_element = [];
      ansi_reading_number = false;
      next_char_send = reading;
    })
    else Option.map (λ (s1 : Screen). if ch == 27 then s1 else next_char plain s1)
        (escape_command ch s)

-- One element of ESC [ m.
unfoldable set_colour : ℕ → ℕ → ℕ
set_colour cthing attrib =
    if cthing == 0 || cthing == 27
    then 0x07
    else if cthing == 1
    then bit_or attrib 0x08
    else if cthing == 5
    then bit_or attrib 0x80
    else if cthing == 7
    then 0x70
    else if cthing == 21 || cthing == 22
    then bit_and attrib 0xF7
    else if cthing == 25
    then bit_and attrib 0x7F
    else if leb 30 cthing && leb cthing 37
    then bit_or (bit_and attrib 0xF8) (cthing - 30)
    else if leb 40 cthing && leb cthing 47
    then bit_or (bit_and attrib 0x8F) ((cthing - 40) * 16)
    else attrib

unfoldable set_colours : List ℕ → Screen → Screen
set_colours [] s = s
set_colours (cthing ∷ rest) s = set_colours rest (change_attribute (set_colour cthing s.attrib) s)

-- A number that counts from 1, or the default.
unfoldable from_one : List ℕ → ℕ → ℕ
from_one elements i = get_or elements i 1 - 1

-- The commands of `special_reading_ansi` that move the cursor; any other byte does nothing.
unfoldable cursor_command : ℕ → Screen → Screen
cursor_command ch s =
    let e = s.ansi_element in
    let n = get_or e 0 1 in
    if ch == b'D'
    then position_console (pos 0) (pos 0 -ℤ pos n) true s
    else if ch == b'a' || ch == b'C'
    then position_console (pos 0) (pos n) true s
    else if ch == b'A'
    then position_console (pos 0 -ℤ pos n) (pos 0) true s
    else if ch == b'e' || ch == b'B'
    then position_console (pos n) (pos 0) true s
    else if ch == b'`' || ch == b'G'
    then position_console (pos s.ypos) (pos (from_one e 0)) false s
    else if ch == b'E'
    then position_console (pos (s.ypos + n)) (pos 0) false s
    else if ch == b'F'
    then position_console (pos s.ypos -ℤ pos n) (pos 0) false s
    else if ch == b'd'
    then position_console (pos (from_one e 0)) (pos s.xpos) false s
    else if ch == b'f' || ch == b'H'
    then position_console (pos (from_one e 0)) (pos (from_one e 1)) false s
    else if ch == b's'
    then record s { old_xpos = s.xpos; old_ypos = s.ypos }
    else if ch == b'u'
    then position_console (pos s.old_ypos) (pos s.old_xpos) false s
    else s

unfoldable scroll_region : Screen → Screen
scroll_region s =
    let low = get_or s.ansi_element 0 1 in
    let high = get_or s.ansi_element 1 s.rows in
    if leb low high then set_scroll_region low high s else s

-- The commands that change cells, the region or the attribute, and the others.
unfoldable screen_command : ℕ → Screen → Option Screen
screen_command ch s =
    let e = s.ansi_element in
    if ch == b'J'
    then clear_virtscreen (get_or e 0 0) s
    else if ch == b'L'
    then scroll_lines (get_or e 0 1) false s
    else if ch == b'M'
    then scroll_lines (get_or e 0 1) true s
    else if ch == b'P'
    then delete_chars_in_line (get_or e 0 1) s
    else if ch == b'K'
    then clear_to_eol (get_or e 0 0) s
    else if ch == b'r'
    then some (scroll_region s)
    else if ch == b'm'
    then some (if length e == 0 then change_attribute 0x07 s else set_colours e s)
    else some (cursor_command ch s)

-- A number that was read, or is missing before a `;`, becomes an element, if there are fewer than 16.
unfoldable end_number : ℕ → Screen → Screen
end_number ch s = record s {
  ansi_element =
      if (s.ansi_reading_number || ch == b';') && ltb (length s.ansi_element) 16
      then s.ansi_element ++ s.cur_ansi_number ∷ []
      else s.ansi_element;
  ansi_reading_number = false;
  cur_ansi_number = 0;
}

unfoldable special_reading_ansi : ℕ → Screen → Option Screen
special_reading_ansi ch s =
    let s1 = end_number ch s in
    let number = s.cur_ansi_number * 10 + (ch - b'0') in
    if leb b'0' ch && leb ch b'9'
    then (if ltb 0x7fffffff number
        then none
        else some (record s { cur_ansi_number = number; ansi_reading_number = true }))
    else if ch == b'?' || ch == b';'
    then some s1
    else Option.map (next_char plain) (screen_command ch s1)

unfoldable interpret : Mode → ℕ → Screen → Option Screen
interpret plain ch s = std_interpret_char ch s
interpret escape ch s = std_interpret_ansi ch s
interpret charset ch s = some (next_char plain s)
interpret reading ch s = special_reading_ansi ch s

unfoldable char_to_virtscreen : ℕ → Screen → Option Screen
char_to_virtscreen ch s = interpret s.next_char_send ch s

-- A byte of a text, as `vputs` sends it: a line feed is followed by a carriage return.
unfoldable send : ℕ → Screen → Option Screen
send c s =
    Option.bind (char_to_virtscreen c s)
      (λ s1. if c == 10 then char_to_virtscreen 13 s1 else some s1)

unfoldable vputs : List ℕ → Screen → Option Screen
vputs [] s = some s
vputs (c ∷ cs) s = Option.bind (send c s) (vputs cs)
