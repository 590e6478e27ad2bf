-- ===== src/Console/Ansi/Moves.antt =====
-- What plain bytes and escapes do to a valid screen of blt/srv/console2/vt100.c.
use os_open_blt.Base.{
  ℕ, zero, suc, ◌+◌, ◌≡◌, refl, Bool, false, ◌||◌, leb, ◌==◌, if◌then◌else◌, some, arith, Returns,
  Returns-map, Returns-if, Returns-bind, Bool-cases, inl, inr,
}
use os_open_blt.Console.Screen.{
  Screen, scroll_virt_up_at_cursor, scroll_virtscreen, change_character, change_attribute,
}
use os_open_blt.Console.Screen.Valid.{
  IsValid, IsValid-same, clear_virtscreen-IsValid, position_console-IsValid,
  scroll_virt_up_at_cursor-IsValid, scroll_virtscreen-IsValid, change_character-IsValid,
}
use os_open_blt.Console.Ansi.{
  index, reverse_index, line_feed, put_char, std_interpret_char, escape_command, std_interpret_ansi,
  scroll_lines,
}

module _ {rows columns : ℕ} where
  -- Nothing of the geometry changes.
  pub unchanged :
      (s s1 : Screen)
      → IsValid rows columns s
      → s1.rows ≡ s.rows
      → s1.columns ≡ s.columns
      → s1.xpos ≡ s.xpos
      → s1.ypos ≡ s.ypos
      → s1.top_scroll ≡ s.top_scroll
      → s1.bottom_scroll ≡ s.bottom_scroll
      → IsValid rows columns s1
  unchanged s s1 ok a b c d e f =
      IsValid-same s s1 ok a b (ground (arith, ok.x_low)) (ground (arith, ok.y_low)) e f

  pub scroll_lines-IsValid :
      (lines : ℕ) (dir : Bool) (s : Screen)
      → IsValid rows columns s
      → Returns (IsValid rows columns) (scroll_lines lines dir s)
  unfolding scroll_lines
  scroll_lines-IsValid zero dir s ok = ok
  scroll_lines-IsValid (suc lines) dir s ok =
      Returns-bind (scroll_virt_up_at_cursor dir s) (IsValid rows columns) (scroll_lines lines dir)
        (λ s1 ok1. scroll_lines-IsValid lines dir s1 ok1)
        (scroll_virt_up_at_cursor-IsValid dir s ok)

  index-IsValid : (s : Screen) → IsValid rows columns s → Returns (IsValid rows columns) (index s)
  unfolding index
  index-IsValid s ok = elim (Bool-cases (leb s.bottom_scroll (s.ypos + 1))) [
    | inl low ↦ rw low (scroll_virtscreen-IsValid s ok)
    | inr high ↦
        rw high (IsValid-same s _ ok refl refl ok.x_low (ground (arith, ok.bottom, high)) refl refl)
  ]

  reverse_index-IsValid :
      (s : Screen) → IsValid rows columns s → Returns (IsValid rows columns) (reverse_index s)
  unfolding reverse_index
  reverse_index-IsValid s ok =
      Returns-if (IsValid rows columns) (leb s.ypos s.top_scroll) _ _
        (scroll_virt_up_at_cursor-IsValid false s ok)
        (IsValid-same s _ ok refl refl ok.x_low (omega (arith, ok.y_low)) refl refl)

  line_feed-IsValid :
      (s : Screen) → IsValid rows columns s → Returns (IsValid rows columns) (line_feed s)
  unfolding line_feed
  line_feed-IsValid s ok = elim (Bool-cases (leb s.bottom_scroll (s.ypos + 1))) [
    | inl low ↦ rw low (
        Returns-map (if s.ypos + 1 == s.bottom_scroll then scroll_virtscreen s else some s)
          (IsValid rows columns) (λ (s1 : Screen). record s1 { xpos = 0 })
          (λ s1 ok1. IsValid-same s1 _ ok1 refl refl (omega (arith, ok1.x_low)) ok1.y_low refl refl)
          (Returns-if (IsValid rows columns) (s.ypos + 1 == s.bottom_scroll) _ _
            (scroll_virtscreen-IsValid s ok) ok))
    | inr high ↦ rw high (
        IsValid-same s _ ok refl refl (omega (arith, ok.x_low)) (ground (arith, ok.bottom, high))
          refl refl)
  ]

  put_char-IsValid :
      (ch : ℕ) (s : Screen)
      → IsValid rows columns s
      → Returns (IsValid rows columns) (put_char ch s)
  unfolding put_char
  put_char-IsValid ch s ok =
      Returns-map (change_character ch s) (IsValid rows columns) _
        (λ s1 ok1. IsValid-same s1 _ ok1 refl refl (ground (arith, ok1.x_low)) ok1.y_low refl refl)
        (change_character-IsValid ch s ok)

  pub std_interpret_char-IsValid :
      (ch : ℕ) (s : Screen)
      → IsValid rows columns s
      → Returns (IsValid rows columns) (std_interpret_char ch s)
  unfolding std_interpret_char
  std_interpret_char-IsValid ch s ok =
      let P = IsValid rows columns in
      Returns-if P (ch == 27) _ _ (unchanged s _ ok refl refl refl refl refl refl) (
        Returns-if P (ch == 12) _ _ (clear_virtscreen-IsValid 2 s ok) (
          Returns-if P (ch == 13) _ _
            (IsValid-same s _ ok refl refl (omega (arith, ok.x_low)) ok.y_low refl refl)
            (Returns-if P (ch == 10) _ _ (line_feed-IsValid s ok) (
              Returns-if P (ch == 9) _ _ (position_console-IsValid _ _ false s ok) (
                Returns-if P (ch == 8) _ _
                  (IsValid-same s _ ok refl refl (ground (arith, ok.x_low)) ok.y_low refl refl)
                  (Returns-if P (ch == 0) _ _ ok (put_char-IsValid ch s ok)))))))

  escape_command-IsValid :
      (ch : ℕ) (s : Screen)
      → IsValid rows columns s
      → Returns (IsValid rows columns) (escape_command ch s)
  unfolding escape_command change_attribute
  escape_command-IsValid ch s ok =
      let P = IsValid rows columns in
      Returns-if P (ch == b'7') _ _ (unchanged s _ ok refl refl refl refl refl refl) (
        Returns-if P (ch == b'8') _ _
          (position_console-IsValid _ _ false _ (unchanged s _ ok refl refl refl refl refl refl))
          (Returns-if P (ch == b'E') _ _
            (index-IsValid _
              (IsValid-same s _ ok refl refl (omega (arith, ok.x_low)) ok.y_low refl refl))
            (Returns-if P (ch == b'D') _ _ (index-IsValid s ok)
              (Returns-if P (ch == b'M') _ _ (reverse_index-IsValid s ok) ok))))

  pub std_interpret_ansi-IsValid :
      (ch : ℕ) (s : Screen)
      → IsValid rows columns s
      → Returns (IsValid rows columns) (std_interpret_ansi ch s)
  unfolding std_interpret_ansi
  std_interpret_ansi-IsValid ch s ok =
      let P = IsValid rows columns in
      Returns-if P (ch == b'(' || ch == b')') _ _ (unchanged s _ ok refl refl refl refl refl refl) (
        Returns-if P (ch == b'[') _ _ (unchanged s _ ok refl refl refl refl refl refl) (
          Returns-map (escape_command ch s) P _
            (λ s1 ok1. elim (Bool-cases (ch == 27)) [
              | inl esc ↦ rw esc ok1
              | inr other ↦ rw other (unchanged s1 _ ok1 refl refl refl refl refl refl)
            ])
            (escape_command-IsValid ch s ok)))
