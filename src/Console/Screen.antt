-- ===== src/Console/Screen.antt =====
-- The screen of blt/srv/console2/vt100.c: the cursor, and what clears, moves and scrolls cells. The cells
-- are a function from their places, of which there are `rows * columns`; `none` is a write outside them,
-- or an `int` that overflows on the way to one. A screen has a row and a column, and fewer than 2 ^ 31
-- cells, so that the products are exact for the places on it. Coordinates and numbers that are read are
-- below 2 ^ 31.
pub mod Valid
pub mod Scroll
use mathlib.Core.Option
use os_open_blt.Base.{
  ℕ, zero, suc, ◌+◌, ◌-◌, ◌*◌, Bool, true, false, ◌&&◌, ◌||◌, not, Option, none, some, List, [],
  ltb, leb, ◌==◌, if◌then◌else◌, update,
}
use os_open_blt.Base.Int.{ℤ, pos, negsuc, ◌+ℤ◌}
use os_open_blt.Libc.Str.{memmove, move_up}

-- The function in `next_char_send`; the two for character sets do the same.
pub data Mode : Type 0 where
  plain escape charset reading : Mode

-- `struct virtscreen`; `ansi_element` holds the elements that `ansi_elements` counts.
pub record Screen : Type 0 where
  pub rows : ℕ
  pub columns : ℕ
  pub cells : ℕ → ℕ
  pub xpos : ℕ
  pub ypos : ℕ
  pub top_scroll : ℕ
  pub bottom_scroll : ℕ
  pub attrib : ℕ
  pub old_attrib : ℕ
  pub old_xpos : ℕ
  pub old_ypos : ℕ
  pub cur_ansi_number : ℕ
  pub ansi_element : List ℕ
  pub ansi_reading_number : Bool
  pub next_char_send : Mode

abbrev pub loc_in_virtscreen : Screen → ℕ → ℕ → ℕ
loc_in_virtscreen s y x = y * s.columns + x

-- How many cells there are.
abbrev pub num_cells : Screen → ℕ
num_cells s = s.rows * s.columns

-- A blank in the colours of the attribute, which is below 256.
abbrev pub blank : ℕ → ℕ
blank attrib = 32 + attrib * 256

-- `count` cells from `start` on get the value.
pub fill : ℕ → ℕ → ℕ → (ℕ → ℕ) → ℕ → ℕ
unfolding update
fill start zero v cells = cells
fill start (suc count) v cells = fill (start + 1) count v (update cells start v)

pub clear_region : ℕ → ℕ → ℕ → ℕ → ℕ → Screen → Option Screen
clear_region y1 x1 y2 x2 attrib s =
    let ch = loc_in_virtscreen s y1 x1 in
    let tr = loc_in_virtscreen s y2 x2 in
    if leb ch tr && leb (num_cells s) tr
    then none
    else some (record s { cells = fill ch (tr + 1 - ch) (blank attrib) s.cells })

pub clear_virtscreen : ℕ → Screen → Option Screen
clear_virtscreen mode s =
    if mode == 0
    then clear_region s.ypos s.xpos (s.rows - 1) (s.columns - 1) s.attrib s
    else if mode == 1
    then clear_region 0 0 s.ypos s.xpos s.attrib s
    else Option.map (λ (s1 : Screen). record s1 { xpos = 0; ypos = 0 })
        (clear_region 0 0 (s.rows - 1) (s.columns - 1) s.attrib s)

pub clear_to_eol : ℕ → Screen → Option Screen
clear_to_eol mode s =
    if mode == 0
    then clear_region s.ypos s.xpos s.ypos (s.columns - 1) s.attrib s
    else if mode == 1
    then clear_region s.ypos 0 s.ypos s.xpos s.attrib s
    else clear_region s.ypos 0 s.ypos (s.columns - 1) s.attrib s

-- A screen of static storage, which begins as zeros.
pub init_virtscreen : ℕ → ℕ → (ℕ → ℕ) → Option Screen
init_virtscreen rows columns fresh_cells = clear_region 0 0 (rows - 1) (columns - 1) 7 (record {
  rows = rows;
  columns = columns;
  cells = fresh_cells;
  xpos = 0;
  ypos = 0;
  top_scroll = 0;
  bottom_scroll = rows;
  attrib = 7;
  old_attrib = 7;
  old_xpos = 0;
  old_ypos = 0;
  cur_ansi_number = 0;
  ansi_element = [];
  ansi_reading_number = false;
  next_char_send = plain;
})

-- A sum of two `int`s as an `int`.
abbrev pub int_sum : ℤ → ℤ
int_sum (pos n) = if ltb n 0x80000000 then pos n else negsuc (0xffffffff - n)
int_sum (negsuc n) = negsuc n

-- A coordinate is brought into a range of `size`.
abbrev pub clamp : ℤ → ℕ → ℕ
clamp (pos n) size = if ltb n size then n else size - 1
clamp (negsuc n) size = 0

pub position_console : ℤ → ℤ → Bool → Screen → Screen
position_console ypos xpos rel s = record s {
  xpos = clamp (int_sum (if rel then pos s.xpos +ℤ xpos else xpos)) s.columns;
  ypos = clamp (int_sum (if rel then pos s.ypos +ℤ ypos else ypos)) s.rows;
}

-- Where `xpos + char_move` overflows, cells are copied from before the line until its end is reached.
pub delete_chars_in_line : ℕ → Screen → Option Screen
delete_chars_in_line char_move s =
    let start = loc_in_virtscreen s s.ypos s.xpos in
    let end = loc_in_virtscreen s s.ypos s.columns in
    let moved =
      if ltb (s.xpos + char_move) s.columns then s.columns - (s.xpos + char_move) else 0 in
    let cells1 = move_up start (start + char_move) moved s.cells in
    if ltb 0x7fffffff (s.xpos + char_move) || (ltb start end && ltb (num_cells s) end)
    then none
    else some
        (record s { cells = fill (start + moved) (end - (start + moved)) (blank s.attrib) cells1 })

pub scroll_virt_up_at_cursor : Bool → Screen → Option Screen
scroll_virt_up_at_cursor dir s =
    let begin = loc_in_virtscreen s s.ypos 0 in
    let end = loc_in_virtscreen s s.bottom_scroll 0 in
    let last_line = end - s.columns in
    let next_line = begin + s.columns in
    let length = last_line - begin in
    if not (leb s.top_scroll s.ypos && ltb s.ypos s.bottom_scroll)
    then some s
    else if ltb (num_cells s) end
    then none
    else if dir
    then some (record s {
      cells = fill last_line s.columns (blank s.attrib) (memmove begin next_line length s.cells);
    })
    else some (record s {
      cells = fill begin s.columns (blank s.attrib) (memmove next_line begin length s.cells);
    })

-- With no line in the region the length is below 0, and `memmove` takes it for one of almost 2^32 bytes.
pub scroll_virtscreen : Screen → Option Screen
scroll_virtscreen s =
    let begin = loc_in_virtscreen s s.top_scroll 0 in
    let end = loc_in_virtscreen s s.bottom_scroll 0 in
    let last_line = end - s.columns in
    let next_line = begin + s.columns in
    if ltb end next_line || ltb (num_cells s) end
    then none
    else some (record s {
      cells =
          fill last_line s.columns (blank s.attrib)
            (memmove begin next_line (last_line - begin) s.cells);
    })

unfoldable pub set_scroll_region : ℕ → ℕ → Screen → Screen
set_scroll_region low high s = record s {
  top_scroll = low - 1;
  bottom_scroll = if leb s.rows high then s.rows else high;
}

unfoldable pub change_attribute : ℕ → Screen → Screen
change_attribute attrib s = record s { attrib = attrib }

unfoldable pub change_character : ℕ → Screen → Option Screen
unfolding update
change_character ch s =
    let at = loc_in_virtscreen s s.ypos s.xpos in
    if leb (num_cells s) at
    then none
    else some (record s { cells = update s.cells at (ch + s.attrib * 256) })
