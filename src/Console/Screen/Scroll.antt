-- ===== src/Console/Screen/Scroll.antt =====
-- What scrolling does to the lines of a screen of blt/srv/console2/vt100.c.
use os_open_blt.Base.{
  ℕ, zero, suc, ◌+◌, ◌-◌, ◌*◌, ◌<◌, ◌≤◌, ◌≡◌, refl, true, ◌&&◌, leb, ltb, ◌==◌, if◌then◌else◌, inl,
  inr, Bool-cases, leb→le, ap, none, arith, Returns, update,
}
use os_open_blt.Libc.Str.{memmove}
use os_open_blt.Libc.Str.Moves.{memmove-moved}
use os_open_blt.Console.Screen.{Screen, loc_in_virtscreen, blank, fill, scroll_virtscreen}
use os_open_blt.Console.Screen.Valid.{IsValid, region-fits, loc-lt, line-le}

fill-at :
    (start count v : ℕ) (cells : ℕ → ℕ) (p : ℕ)
    → fill start count v cells p ≡ (if leb start p && ltb p (start + count) then v else cells p)
unfolding fill update
fill-at start zero v cells p = ground arith
fill-at start (suc count) v cells p =
    ground (arith, fill-at (start + 1) count v (update cells start v) p)

-- The cells of a line after the lines from `top` to before `bottom` have gone up by one.
abbrev pub scrolled : Screen → ℕ → ℕ → ℕ
scrolled s y x =
    if leb s.top_scroll y && ltb y s.bottom_scroll
    then (if y + 1 == s.bottom_scroll
        then blank s.attrib
        else s.cells (loc_in_virtscreen s (y + 1) x))
    else s.cells (loc_in_virtscreen s y x)

line-leb : (k y x c : ℕ) → x < c → leb (k * c) (y * c + x) ≡ leb k y
line-leb k y x c narrow = elim (Bool-cases (leb k y)) [
  | inl below ↦ ground (arith, below, line-le k y c (leb→le k y below))
  | inr above ↦ ground (arith, above, loc-lt y x k c)
]

line-ltb : (k y x c : ℕ) → x < c → ltb (y * c + x) (k * c) ≡ ltb y k
line-ltb k y x c narrow = ground (arith, line-leb k y x c)

suc-line : (k c : ℕ) → k * c + c ≡ suc k * c
suc-line k c = grind arith

next_line : (y c : ℕ) → y * c + c ≡ (y + 1) * c
next_line y c = grind arith

scrolled_cells :
    (s : Screen) (bottom y x : ℕ)
    → s.bottom_scroll ≡ suc bottom
    → s.top_scroll ≤ bottom
    → x < s.columns
    → fill
        (bottom * s.columns)
        s.columns
        (blank s.attrib)
        (memmove
          (s.top_scroll * s.columns)
          (s.top_scroll * s.columns + s.columns)
          (bottom * s.columns - s.top_scroll * s.columns)
          s.cells)
        (y * s.columns + x)
      ≡ scrolled s y x
scrolled_cells s bottom y x last some_line narrow =
    let c = s.columns in
    let p = y * c + x in
    let top = s.top_scroll * c in
    let end : top + (bottom * c - top) ≡ bottom * c =
      omega (arith, line-le s.top_scroll bottom c some_line) in
    rw
      (
        fill-at (bottom * c) c (blank s.attrib) (memmove top (top + c) (bottom * c - top) s.cells)
            p,
        memmove-moved top (top + c) (bottom * c - top) s.cells p,
        end,
        suc-line bottom c,
        line-leb bottom y x c narrow,
        line-ltb (suc bottom) y x c narrow,
        line-leb s.top_scroll y x c narrow,
        line-ltb bottom y x c narrow,
        last,
      )
      (elim (Bool-cases (leb s.top_scroll y)) [
        | inl inside ↦
            let from : top + c + (p - top) ≡ (y + 1) * c + x =
              omega
                (arith, line-le s.top_scroll y c (leb→le s.top_scroll y inside), next_line y c) in
            ground (arith, inside, ap s.cells from)
        | inr outside ↦ ground (arith, outside)
      ])

-- The lines of the scrolling region go up by one, the last of them becomes blank, and the other lines stay.
pub scroll_virtscreen-scrolled :
    (rows columns : ℕ) (s : Screen)
    → IsValid rows columns s
    → Returns
        (λ s1. (y x : ℕ) → x < columns → s1.cells (y * columns + x) ≡ scrolled s y x)
        (scroll_virtscreen s)
unfolding scroll_virtscreen
scroll_virtscreen-scrolled rows columns s ok =
    let bottom = s.bottom_scroll - 1 in
    let last : s.bottom_scroll ≡ suc bottom = omega (arith, ok.region) in
    let first_line : s.top_scroll * s.columns + 0 ≡ s.top_scroll * s.columns = omega arith in
    let last_line : s.bottom_scroll * s.columns + 0 - s.columns ≡ bottom * s.columns =
      omega (arith, ap (λ (n : ℕ). n * s.columns) last, suc-line bottom s.columns) in
    rw (region-fits s ok, last_line, first_line, ← ok.width)
      (λ y x narrow. scrolled_cells s bottom y x last (omega (arith, ok.region)) narrow)

-- A region with no line is not scrolled.
pub scroll_virtscreen-no_line :
    (s : Screen)
    → s.bottom_scroll * s.columns < s.top_scroll * s.columns + s.columns
    → scroll_virtscreen s ≡ none
unfolding scroll_virtscreen
scroll_virtscreen-no_line s short =
    let none_left : ltb (loc_in_virtscreen s s.bottom_scroll 0)
          (loc_in_virtscreen s s.top_scroll 0 + s.columns)
        ≡ true =
      ground arith in
    rw none_left refl
