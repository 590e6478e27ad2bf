-- ===== src/Console/Ansi/Region.antt =====
-- What follows a request to blt/srv/console2/vt100.c for a scrolling region below the screen.
use os_open_blt.Base.{
  ℕ, zero, suc, ◌+◌, ◌-◌, ◌*◌, ◌<◌, ◌≤◌, ◌≡◌, refl, true, leb, ◌==◌, none, List, [], ◌∷◌, get_or,
  arith, ap, Returns,
}
use os_open_blt.Console.Screen.{Screen, Mode, plain, reading, scroll_virtscreen, set_scroll_region}
use os_open_blt.Console.Screen.Valid.{line-lt}
use os_open_blt.Console.Screen.Scroll.{scroll_virtscreen-no_line}
use os_open_blt.Console.Ansi.{
  line_feed, std_interpret_char, screen_command, scroll_region, special_reading_ansi, interpret,
  char_to_virtscreen, end_number,
}

off_screen : ℕ → Screen → Screen
off_screen low s = record s { top_scroll = low - 1; bottom_scroll = s.rows }

scroll_region-below :
    (s : Screen) (low high : ℕ)
    → s.ansi_element ≡ low ∷ high ∷ []
    → s.rows < low
    → low ≤ high
    → scroll_region s ≡ off_screen low s
unfolding scroll_region set_scroll_region off_screen
scroll_region-below s low high asked below order =
    let first : get_or s.ansi_element 0 1 ≡ low = ap (λ (e : List ℕ). get_or e 0 1) asked in
    let second : get_or s.ansi_element 1 s.rows ≡ high =
      ap (λ (e : List ℕ). get_or e 1 s.rows) asked in
    let asks : leb low high ≡ true = ground arith in
    let clipped : leb s.rows high ≡ true = ground arith in rw (first, second, asks, clipped) refl

last_of : (c n : ℕ) → 0 < n → (n - 1) * c + c ≡ n * c
last_of c zero some_line = absurd (omega arith)
last_of c (suc n) some_line = let less : suc n - 1 ≡ n = omega arith in rw less (grind arith)

scroll_virtscreen-off_screen :
    (s : Screen) (low : ℕ)
    → s.rows < low
    → 0 < s.columns
    → scroll_virtscreen (off_screen low s) ≡ none
unfolding off_screen
scroll_virtscreen-off_screen s low below wide =
    scroll_virtscreen-no_line (off_screen low s)
      (omega (arith, line-lt s.rows low s.columns below, last_of s.columns low (omega arith)))

line_feed-off_screen :
    (s : Screen) (low : ℕ)
    → s.rows < low
    → 0 < s.columns
    → s.ypos + 1 ≡ s.rows
    → line_feed (off_screen low s) ≡ none
unfolding line_feed off_screen
line_feed-off_screen s low below wide last_line =
    let at_end : leb s.rows (s.ypos + 1) ≡ true = ground arith in
    let last : (s.ypos + 1 == s.rows) ≡ true = ground arith in
    rw (at_end, last, scroll_virtscreen-off_screen s low below wide) refl

-- When ESC [ r, with two numbers, asks for a region from a line behind the last one on, a line feed in the
-- last line of the screen then moves memory from outside the screen, where the region's first cell has a
-- number below 2 ^ 31. The screen has a column.
pub line_feed-region_below :
    (s : Screen) (low high : ℕ)
    → s.next_char_send ≡ reading
    → (end_number b'r' s).ansi_element ≡ low ∷ high ∷ []
    → s.rows < low
    → low ≤ high
    → low * s.columns < 0x80000000
    → 0 < s.columns
    → s.ypos + 1 ≡ s.rows
    → Returns (λ s1. char_to_virtscreen 10 s1 ≡ none) (char_to_virtscreen b'r' s)
unfolding char_to_virtscreen interpret special_reading_ansi screen_command std_interpret_char
    off_screen end_number
line_feed-region_below s low high mode asked below order small wide last_line =
    rw
      (
        ap (λ (m : Mode). interpret m b'r' s) mode,
        scroll_region-below (end_number b'r' s) low high asked below order,
      )
      (line_feed-off_screen (record (end_number b'r' s) { next_char_send = plain }) low below wide
        last_line)
