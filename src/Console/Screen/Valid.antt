-- ===== src/Console/Screen/Valid.antt =====
-- What keeps a screen of blt/srv/console2/vt100.c within its cells.
use mathlib.Core.Bool.{and-false}
use os_open_blt.Base.{
  ℕ, ◌+◌, ◌-◌, ◌*◌, ◌<◌, ◌≤◌, ◌≡◌, refl, Bool, true, false, ◌&&◌, ◌||◌, not, leb, ltb, ◌==◌, arith,
  Returns, Returns-map, Returns-if,
}
use os_open_blt.Base.Int.{ℤ, pos, negsuc}
use os_open_blt.Console.Screen.{
  Screen, num_cells, loc_in_virtscreen, clear_region, clear_virtscreen, clear_to_eol, clamp,
  position_console, delete_chars_in_line, scroll_virt_up_at_cursor, scroll_virtscreen,
  change_character, init_virtscreen,
}

-- The screen has the given size, which the number of a cell fits an `int` of, the cursor is on it, and the
-- scrolling region is a range of its lines.
pub record IsValid (rows columns : ℕ) (s : Screen) : Type 0 where
  pub height : s.rows ≡ rows
  pub width : s.columns ≡ columns
  pub x_low : s.xpos < s.columns
  pub y_low : s.ypos < s.rows
  pub region : s.top_scroll < s.bottom_scroll
  pub bottom : s.bottom_scroll ≤ s.rows
  pub small : rows * columns < 0x80000000

pub loc-lt : (y x rows columns : ℕ) → y < rows → x < columns → y * columns + x < rows * columns
loc-lt y x rows columns p q = grind arith

pub line-le : (y rows columns : ℕ) → y ≤ rows → y * columns ≤ rows * columns
line-le y rows columns p = grind arith

pub line-lt : (y rows columns : ℕ) → y < rows → y * columns + columns ≤ rows * columns
line-lt y rows columns p = grind arith

-- Another cursor or other cells.
pub IsValid-same :
    {rows columns : ℕ} (s s1 : Screen)
    → IsValid rows columns s
    → s1.rows ≡ s.rows
    → s1.columns ≡ s.columns
    → s1.xpos < s.columns
    → s1.ypos < s.rows
    → s1.top_scroll ≡ s.top_scroll
    → s1.bottom_scroll ≡ s.bottom_scroll
    → IsValid rows columns s1
IsValid-same s s1 ok a b c d e f =
    ground (arith, ok.height, ok.width, ok.x_low, ok.y_low, ok.region, ok.bottom, ok.small)

clamp-lt : (z : ℤ) (size : ℕ) → 0 < size → clamp z size < size
clamp-lt (pos n) size some_room = ground arith
clamp-lt (negsuc n) size some_room = some_room

module _ {rows columns : ℕ} where
  pub clear_region-IsValid :
      (y1 x1 y2 x2 attrib : ℕ) (s : Screen)
      → IsValid rows columns s
      → y2 < s.rows
      → x2 < s.columns
      → Returns (IsValid rows columns) (clear_region y1 x1 y2 x2 attrib s)
  unfolding clear_region
  clear_region-IsValid y1 x1 y2 x2 attrib s ok p q =
      let within : leb (num_cells s) (loc_in_virtscreen s y2 x2) ≡ false =
        ground (arith, loc-lt y2 x2 s.rows s.columns p q) in
      rw within
        (ground (arith, ok.height, ok.width, ok.x_low, ok.y_low, ok.region, ok.bottom, ok.small))

  pub clear_virtscreen-IsValid :
      (mode : ℕ) (s : Screen)
      → IsValid rows columns s
      → Returns (IsValid rows columns) (clear_virtscreen mode s)
  unfolding clear_virtscreen
  clear_virtscreen-IsValid mode s ok =
      let last_y : s.rows - 1 < s.rows = omega (arith, ok.y_low) in
      let last_x : s.columns - 1 < s.columns = omega (arith, ok.x_low) in
      Returns-if (IsValid rows columns) (mode == 0) _ _
        (clear_region-IsValid s.ypos s.xpos (s.rows - 1) (s.columns - 1) s.attrib s ok last_y
          last_x)
        (Returns-if (IsValid rows columns) (mode == 1) _ _
          (clear_region-IsValid 0 0 s.ypos s.xpos s.attrib s ok ok.y_low ok.x_low)
          (Returns-map (clear_region 0 0 (s.rows - 1) (s.columns - 1) s.attrib s)
            (IsValid rows columns) (λ (s1 : Screen). record s1 { xpos = 0; ypos = 0 })
            (λ s1 ok1.
              IsValid-same s1 _ ok1 refl refl (omega (arith, ok1.x_low)) (omega (arith, ok1.y_low))
                refl refl)
            (clear_region-IsValid 0 0 (s.rows - 1) (s.columns - 1) s.attrib s ok last_y last_x)))

  pub clear_to_eol-IsValid :
      (mode : ℕ) (s : Screen)
      → IsValid rows columns s
      → Returns (IsValid rows columns) (clear_to_eol mode s)
  unfolding clear_to_eol
  clear_to_eol-IsValid mode s ok =
      let last : s.columns - 1 < s.columns = omega (arith, ok.x_low) in
      Returns-if (IsValid rows columns) (mode == 0) _ _
        (clear_region-IsValid s.ypos s.xpos s.ypos (s.columns - 1) s.attrib s ok ok.y_low last)
        (Returns-if (IsValid rows columns) (mode == 1) _ _
          (clear_region-IsValid s.ypos 0 s.ypos s.xpos s.attrib s ok ok.y_low ok.x_low)
          (clear_region-IsValid s.ypos 0 s.ypos (s.columns - 1) s.attrib s ok ok.y_low last))

  pub position_console-IsValid :
      (y x : ℤ) (rel : Bool) (s : Screen)
      → IsValid rows columns s
      → IsValid rows columns (position_console y x rel s)
  unfolding position_console
  position_console-IsValid y x rel s ok =
      IsValid-same s _ ok refl refl (clamp-lt _ s.columns (omega (arith, ok.x_low)))
        (clamp-lt _ s.rows (omega (arith, ok.y_low))) refl refl

  pub delete_chars_in_line-IsValid :
      (n : ℕ) (s : Screen)
      → IsValid rows columns s
      → ltb (s.xpos + n) 0x80000000 ≡ true
      → Returns (IsValid rows columns) (delete_chars_in_line n s)
  unfolding delete_chars_in_line
  delete_chars_in_line-IsValid n s ok few =
      let no_overflow : ltb 0x7fffffff (s.xpos + n) ≡ false = ground (arith, few) in
      let within : ltb (num_cells s) (loc_in_virtscreen s s.ypos s.columns) ≡ false =
        ground (arith, line-lt s.ypos s.rows s.columns ok.y_low) in
      rw (no_overflow, within, and-false)
        (IsValid-same s _ ok refl refl ok.x_low ok.y_low refl refl)

  pub scroll_virt_up_at_cursor-IsValid :
      (dir : Bool) (s : Screen)
      → IsValid rows columns s
      → Returns (IsValid rows columns) (scroll_virt_up_at_cursor dir s)
  unfolding scroll_virt_up_at_cursor
  scroll_virt_up_at_cursor-IsValid dir s ok =
      let within : ltb (num_cells s) (loc_in_virtscreen s s.bottom_scroll 0) ≡ false =
        ground (arith, line-le s.bottom_scroll s.rows s.columns ok.bottom) in
      rw within (
        Returns-if (IsValid rows columns)
          (not (leb s.top_scroll s.ypos && ltb s.ypos s.bottom_scroll)) _ _ ok
          (Returns-if (IsValid rows columns) dir _ _
            (IsValid-same s _ ok refl refl ok.x_low ok.y_low refl refl)
            (IsValid-same s _ ok refl refl ok.x_low ok.y_low refl refl)))

  -- The region lies on the screen, so that `scroll_virtscreen` does.
  pub region-fits :
      (s : Screen)
      → IsValid rows columns s
      → (ltb
            (loc_in_virtscreen s s.bottom_scroll 0)
            (loc_in_virtscreen s s.top_scroll 0 + s.columns)
          || ltb (num_cells s) (loc_in_virtscreen s s.bottom_scroll 0))
        ≡ false
  region-fits s ok = ground (
    arith,
    line-le s.bottom_scroll s.rows s.columns ok.bottom,
    line-lt s.top_scroll s.bottom_scroll s.columns ok.region,
  )

  pub scroll_virtscreen-IsValid :
      (s : Screen) → IsValid rows columns s → Returns (IsValid rows columns) (scroll_virtscreen s)
  unfolding scroll_virtscreen
  scroll_virtscreen-IsValid s ok =
      rw (region-fits s ok) (IsValid-same s _ ok refl refl ok.x_low ok.y_low refl refl)

  pub change_character-IsValid :
      (ch : ℕ) (s : Screen)
      → IsValid rows columns s
      → Returns (IsValid rows columns) (change_character ch s)
  unfolding change_character
  change_character-IsValid ch s ok =
      let within : leb (num_cells s) (loc_in_virtscreen s s.ypos s.xpos) ≡ false =
        ground (arith, loc-lt s.ypos s.xpos s.rows s.columns ok.y_low ok.x_low) in
      rw within (IsValid-same s _ ok refl refl ok.x_low ok.y_low refl refl)

-- A screen with a row, a column and fewer than 2 ^ 31 cells begins as a valid one of its size.
pub init_virtscreen-IsValid :
    (rows columns : ℕ) (fresh_cells : ℕ → ℕ)
    → 0 < rows
    → 0 < columns
    → rows * columns < 0x80000000
    → Returns (IsValid rows columns) (init_virtscreen rows columns fresh_cells)
unfolding init_virtscreen
init_virtscreen-IsValid rows columns fresh_cells tall wide small =
    clear_region-IsValid 0 0 (rows - 1) (columns - 1) 7 _
      (record {
        height = refl;
        width = refl;
        x_low = wide;
        y_low = tall;
        region = tall;
        bottom = omega arith;
        small = small;
      })
      (omega arith) (omega arith)
