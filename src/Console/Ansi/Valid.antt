-- ===== src/Console/Ansi/Valid.antt =====
-- The bytes sent to blt/srv/console2/vt100.c and a valid screen, but for a request for a scrolling region
-- that is not on it, and numbers that overflow.
use mathlib.Core.Option
use os_open_blt.Base.{
  ℕ, ◌+◌, ◌-◌, ◌*◌, ◌≡◌, refl, Bool, true, false, ◌&&◌, ◌||◌, not, leb, ltb, ◌==◌, if◌then◌else◌,
  some, none, List, [], ◌∷◌, get_or, length, arith, Returns, Returns-map, Returns-if, Returns-test,
  Returns-bind, Option-cases, inl, inr,
}
use os_open_blt.Base.Int.{ℤ}
use os_open_blt.Console.Screen.{
  Screen, Mode, plain, escape, charset, reading, set_scroll_region, change_attribute,
}
use os_open_blt.Console.Screen.Valid.{
  IsValid, clear_virtscreen-IsValid, clear_to_eol-IsValid, position_console-IsValid,
  delete_chars_in_line-IsValid,
}
use os_open_blt.Console.Ansi.{
  set_colours, cursor_command, scroll_region, screen_command, end_number, special_reading_ansi,
  interpret, char_to_virtscreen, vputs, send,
}
use os_open_blt.Console.Ansi.Moves.{
  unchanged, scroll_lines-IsValid, std_interpret_char-IsValid, std_interpret_ansi-IsValid,
}

-- The scrolling region that ESC [ r asks for, if it asks for one, has a line that is on the screen.
abbrev pub region_on_screen : Screen → Bool
region_on_screen s =
    let low = get_or s.ansi_element 0 1 in
    let high = get_or s.ansi_element 1 s.rows in
    not (leb low high) || (leb low s.rows && ltb 0 high)

-- The number that the digit goes on with is an `int`.
abbrev pub digit_fits : ℕ → Screen → Bool
digit_fits ch s = ltb (s.cur_ansi_number * 10 + (ch - b'0')) 0x80000000

-- The column behind the characters that ESC [ P deletes is an `int`.
abbrev pub deletion_fits : Screen → Bool
deletion_fits s = ltb (s.xpos + get_or s.ansi_element 0 1) 0x80000000

-- A digit does not overflow the number, ESC [ r asks for a good region, and ESC [ P does not overflow.
abbrev pub mode_region_ok : Mode → ℕ → Screen → Bool
mode_region_ok plain ch s = true
mode_region_ok escape ch s = true
mode_region_ok charset ch s = true
mode_region_ok reading ch s =
    (not (leb b'0' ch && leb ch b'9') || digit_fits ch s)
    && (not (ch == b'r') || region_on_screen (end_number ch s))
    && (not (ch == b'P') || deletion_fits (end_number ch s))

abbrev pub region_ok : ℕ → Screen → Bool
region_ok ch s = mode_region_ok s.next_char_send ch s

-- So it is for all bytes of the text.
abbrev pub regions_ok : List ℕ → Screen → Bool
regions_ok [] s = true
regions_ok (c ∷ cs) s =
    region_ok c s && elim (send c s) [ none ↦ true | some s1 ↦ regions_ok cs s1 ]

implied : (a b : Bool) → (not a || b) ≡ true → a ≡ true → b ≡ true
implied a b either holds = ground (arith, either, holds)

return_ok : (mode : Mode) (s : Screen) → mode_region_ok mode 13 s ≡ true
return_ok plain s = refl
return_ok escape s = refl
return_ok charset s = refl
return_ok reading s = refl

and_three : (a b c : Bool) → (a && b && c) ≡ true → (a ≡ true) × (b ≡ true) × (c ≡ true)
and_three a b c all = ground (arith, all)

choice : (P : Screen → Type 0) (b : Bool) (x y : Screen) → P x → P y → P (if b then x else y)
choice P true x y p q = p
choice P false x y p q = q

module _ {rows columns : ℕ} where
  end_number-IsValid :
      (ch : ℕ) (s : Screen) → IsValid rows columns s → IsValid rows columns (end_number ch s)
  unfolding end_number
  end_number-IsValid ch s ok = unchanged s _ ok refl refl refl refl refl refl

  set_colours-IsValid :
      (elements : List ℕ) (s : Screen)
      → IsValid rows columns s
      → IsValid rows columns (set_colours elements s)
  unfolding set_colours change_attribute
  set_colours-IsValid [] s ok = ok
  set_colours-IsValid (cthing ∷ rest) s ok =
      set_colours-IsValid rest _ (unchanged s _ ok refl refl refl refl refl refl)

  cursor_command-IsValid :
      (ch : ℕ) (s : Screen) → IsValid rows columns s → IsValid rows columns (cursor_command ch s)
  unfolding cursor_command
  cursor_command-IsValid ch s ok =
      let P = IsValid rows columns in
      let move = λ (y x : ℤ) (rel : Bool). position_console-IsValid y x rel s ok in
      choice P (ch == b'D') _ _ (move _ _ _) (
        choice P (ch == b'a' || ch == b'C') _ _ (move _ _ _) (
          choice P (ch == b'A') _ _ (move _ _ _) (
            choice P (ch == b'e' || ch == b'B') _ _ (move _ _ _) (
              choice P (ch == b'`' || ch == b'G') _ _ (move _ _ _) (
                choice P (ch == b'E') _ _ (move _ _ _) (
                  choice P (ch == b'F') _ _ (move _ _ _) (
                    choice P (ch == b'd') _ _ (move _ _ _) (
                      choice P (ch == b'f' || ch == b'H') _ _ (move _ _ _) (
                        choice P (ch == b's') _ _ (unchanged s _ ok refl refl refl refl refl refl)
                          (choice P (ch == b'u') _ _ (move _ _ _) ok))))))))))

  scroll_region-IsValid :
      (s : Screen)
      → IsValid rows columns s
      → region_on_screen s ≡ true
      → IsValid rows columns (scroll_region s)
  unfolding scroll_region set_scroll_region
  scroll_region-IsValid s ok good =
      ground (arith, ok.height, ok.width, ok.x_low, ok.y_low, ok.region, ok.bottom)

  screen_command-IsValid :
      (ch : ℕ) (s : Screen)
      → IsValid rows columns s
      → (not (ch == b'r') || region_on_screen s) ≡ true
      → (not (ch == b'P') || deletion_fits s) ≡ true
      → Returns (IsValid rows columns) (screen_command ch s)
  unfolding screen_command change_attribute
  screen_command-IsValid ch s ok good few =
      let P = IsValid rows columns in
      Returns-if P (ch == b'J') _ _ (clear_virtscreen-IsValid _ s ok) (
        Returns-if P (ch == b'L') _ _ (scroll_lines-IsValid _ false s ok) (
          Returns-if P (ch == b'M') _ _ (scroll_lines-IsValid _ true s ok) (
            Returns-test P (ch == b'P') _ _
              (λ deletes.
                delete_chars_in_line-IsValid _ s ok
                  (implied (ch == b'P') (deletion_fits s) few deletes))
              (λ keeps. Returns-if P (ch == b'K') _ _ (clear_to_eol-IsValid _ s ok) (
                Returns-test P (ch == b'r') _ _
                  (λ region.
                    scroll_region-IsValid s ok
                      (implied (ch == b'r') (region_on_screen s) good region))
                  (λ other.
                    Returns-if P (ch == b'm') _ _
                      (choice P (length s.ansi_element == 0) _ _
                        (unchanged s _ ok refl refl refl refl refl refl)
                        (set_colours-IsValid s.ansi_element s ok))
                      (cursor_command-IsValid ch s ok)))))))

  special_reading_ansi-IsValid :
      (ch : ℕ) (s : Screen)
      → IsValid rows columns s
      → mode_region_ok reading ch s ≡ true
      → Returns (IsValid rows columns) (special_reading_ansi ch s)
  unfolding special_reading_ansi
  special_reading_ansi-IsValid ch s ok good =
      let P = IsValid rows columns in
      let ok1 : IsValid rows columns (end_number ch s) = end_number-IsValid ch s ok in
      let digit = (leb b'0' ch && leb ch b'9') in
      let region = (not (ch == b'r') || region_on_screen (end_number ch s)) in
      let deletion = (not (ch == b'P') || deletion_fits (end_number ch s)) in
      let (number_ok, region_ok, deletion_ok) =
        and_three (not digit || digit_fits ch s) region deletion good in
      Returns-test P digit _ _
        (λ is_digit.
          let fits = implied digit (digit_fits ch s) number_ok is_digit in
          let no_overflow : ltb 0x7fffffff (s.cur_ansi_number * 10 + (ch - b'0')) ≡ false =
            ground (arith, fits) in
          rw no_overflow (unchanged s _ ok refl refl refl refl refl refl))
        (λ other. Returns-if P (ch == b'?' || ch == b';') _ _ ok1 (
          Returns-map (screen_command ch (end_number ch s)) P _
            (λ s1 ok2. unchanged s1 _ ok2 refl refl refl refl refl refl)
            (screen_command-IsValid ch (end_number ch s) ok1 region_ok deletion_ok)))

  interpret-IsValid :
      (mode : Mode) (ch : ℕ) (s : Screen)
      → IsValid rows columns s
      → mode_region_ok mode ch s ≡ true
      → Returns (IsValid rows columns) (interpret mode ch s)
  unfolding interpret
  interpret-IsValid plain ch s ok good = std_interpret_char-IsValid ch s ok
  interpret-IsValid escape ch s ok good = std_interpret_ansi-IsValid ch s ok
  interpret-IsValid charset ch s ok good = unchanged s _ ok refl refl refl refl refl refl
  interpret-IsValid reading ch s ok good = special_reading_ansi-IsValid ch s ok good

  -- Every byte sent to a valid screen leaves a valid screen of the same size and writes within it, unless it
  -- ends a request for a scrolling region that is not on the screen, or makes a number overflow.
  pub char_to_virtscreen-IsValid :
      (ch : ℕ) (s : Screen)
      → IsValid rows columns s
      → region_ok ch s ≡ true
      → Returns (IsValid rows columns) (char_to_virtscreen ch s)
  unfolding char_to_virtscreen
  char_to_virtscreen-IsValid ch s ok good = interpret-IsValid s.next_char_send ch s ok good

  send-IsValid :
      (c : ℕ) (s : Screen)
      → IsValid rows columns s
      → region_ok c s ≡ true
      → Returns (IsValid rows columns) (send c s)
  unfolding send
  send-IsValid c s ok good =
      let P = IsValid rows columns in
      Returns-bind (char_to_virtscreen c s) P _
        (λ s1 ok1.
          Returns-if P (c == 10) _ _
            (char_to_virtscreen-IsValid 13 s1 ok1 (return_ok s1.next_char_send s1)) ok1)
        (char_to_virtscreen-IsValid c s ok good)

  -- A text written to a valid screen, which has fewer than 2 ^ 31 cells, leaves a valid screen of the same
  -- size, if no scrolling region that is not on the screen is asked for in it, every number in it is below
  -- 2 ^ 31, and so is the sum of the cursor's column and the number of characters that ESC [ P deletes.
  pub vputs-IsValid :
      (cs : List ℕ) (s : Screen)
      → IsValid rows columns s
      → regions_ok cs s ≡ true
      → Returns (IsValid rows columns) (vputs cs s)
  unfolding vputs Option.bind
  vputs-IsValid [] s ok good = ok
  vputs-IsValid (c ∷ cs) s ok good =
      let one : Returns (IsValid rows columns) (send c s) =
        send-IsValid c s ok (ground (arith, good)) in
      elim (Option-cases (send c s)) [
        | inl stopped ↦ absurd (rw stopped at one)
        | inr (s1, e) ↦ rw e (vputs-IsValid cs s1 (rw e at one) (ground (arith, rw e at good)))
      ]
