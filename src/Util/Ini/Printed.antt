-- ===== src/Util/Ini/Printed.antt =====
-- What `load_ini` of blt/util/bootmaker.c reads of what `print_sections` prints.
use os_open_blt.Base.{
  ℕ, ◌≡◌, refl, sym, ◌∙◌, ap, Bool, true, false, not, ◌&&◌, Option, none, some, List, [], ◌∷◌, ◌++◌,
  ◌==◌, reverse, map, arith,
}
use mathlib.Core.Option
use mathlib.Core.List.{reverse_aux, append_assoc, append-nil, reverse-reverse}
use os_open_blt.Util.Ini.{
  Nvpair, Section, State, st_newline, st_skipline, st_header, st_lhs, st_rhs, Reader, all_sections,
  newline, skips, newline_step, header_step, lhs_step, rhs_step, ini_step, ini_loop, load_ini,
  print_pairs, print_sections,
}

-- A byte is not in a text.
unfoldable pub lacks : ℕ → List ℕ → Bool
lacks b [] = true
lacks b (x ∷ xs) = not (x == b) && lacks b xs

unfoldable pub starts_lhs : List ℕ → Bool
starts_lhs [] = false
starts_lhs (x ∷ xs) = not (x == newline) && not (x == b'[') && not (skips x)

-- A pair that is read back: its name begins like one and has no `=`, and it is one line.
pub record IsPrintable (p : Nvpair) : Type 0 where
  pub starts : starts_lhs p.name ≡ true
  pub name_line : lacks newline p.name ≡ true
  pub name_equals : lacks b'=' p.name ≡ true
  pub value_line : lacks newline p.value ≡ true

abbrev pub AllPrintable : List Nvpair → Type 0
AllPrintable [] = Unit {0}
AllPrintable (p ∷ ps) = IsPrintable p × AllPrintable ps

abbrev pub ArePrintable : List Section → Type 0
ArePrintable [] = Unit {0}
ArePrintable (s ∷ ss) = (lacks b']' s.title ≡ true) × AllPrintable s.pairs × ArePrintable ss

lacks-cons :
    (b x : ℕ) (xs : List ℕ) → lacks b (x ∷ xs) ≡ true → ((x == b) ≡ false) × (lacks b xs ≡ true)
unfolding lacks
lacks-cons b x xs ok = ground (arith, ok)

-- The reader in a state.
abbrev at : State → List ℕ → List ℕ → List Section → Option Section → Reader
at state lhs rhs earlier cur = record {
  state = state;
  lhs = lhs;
  rhs = rhs;
  earlier = earlier;
  cur = cur;
}

module _ (rest : List ℕ) (rhs : List ℕ) (earlier : List Section) where
  read_title :
      (title lhs : List ℕ) (cur : Option Section)
      → lacks b']' title ≡ true
      → ini_loop (title ++ b']' ∷ rest) (at st_header lhs rhs earlier cur)
        ≡ ini_loop rest (
            at st_skipline
              (reverse_aux title lhs)
              rhs
              (all_sections (at st_header lhs rhs earlier cur))
              (some (record { title = reverse (reverse_aux title lhs); pairs = [] })))
  unfolding ini_loop ini_step header_step lacks Option.bind all_sections
  read_title [] lhs cur ok = refl
  read_title (x ∷ title) lhs cur ok =
      let (other, ok') = lacks-cons b']' x title ok in
      rw (header_step, other) (read_title title (x ∷ lhs) cur ok')

  read_name :
      (name lhs : List ℕ) (cur : Option Section)
      → lacks newline name ≡ true
      → lacks b'=' name ≡ true
      → ini_loop (name ++ b'=' ∷ rest) (at st_lhs lhs rhs earlier cur)
        ≡ ini_loop rest (at st_rhs (reverse_aux name lhs) [] earlier cur)
  unfolding ini_loop ini_step lhs_step lacks Option.bind
  read_name [] lhs cur one_line no_equals = refl
  read_name (x ∷ name) lhs cur one_line no_equals =
      let (other, one_line') = lacks-cons newline x name one_line in
      let (no_equal, no_equals') = lacks-cons b'=' x name no_equals in
      rw (lhs_step, other, no_equal) (read_name name (x ∷ lhs) cur one_line' no_equals')

  read_value :
      (value lhs acc : List ℕ) (s : Section)
      → lacks newline value ≡ true
      → ini_loop (value ++ newline ∷ rest) (at st_rhs lhs acc earlier (some s))
        ≡ ini_loop rest (
            at st_newline lhs (reverse_aux value acc) earlier (
              some (record s {
                pairs =
                    record { name = reverse lhs; value = reverse (reverse_aux value acc) }
                    ∷ s.pairs;
              })))
  unfolding ini_loop ini_step rhs_step lacks Option.bind
  read_value [] lhs acc s ok = refl
  read_value (x ∷ value) lhs acc s ok =
      let (other, ok') = lacks-cons newline x value ok in
      rw (rhs_step, other) (read_value value lhs (x ∷ acc) s ok')

starts_lhs-step :
    (x : ℕ) (name lhs rhs : List ℕ) (earlier : List Section) (cur : Option Section)
    → starts_lhs (x ∷ name) ≡ true
    → newline_step x (at st_newline lhs rhs earlier cur) ≡ at st_lhs (x ∷ []) rhs earlier cur
unfolding starts_lhs newline_step
starts_lhs-step x name lhs rhs earlier cur ok =
    let one : (x == newline) ≡ false = ground (arith, ok) in
    let two : (x == b'[') ≡ false = ground (arith, ok) in
    let three : skips x ≡ false = ground (arith, ok) in rw (one, two, three)

-- A pair, from its first byte on.
read_pair :
    (name value rest lhs rhs : List ℕ) (earlier : List Section) (s : Section)
    → IsPrintable (record { name = name; value = value })
    → ini_loop
        (name ++ (b'=' ∷ (value ++ (newline ∷ rest))))
        (at st_newline lhs rhs earlier (some s))
      ≡ ini_loop rest (
          at st_newline
            (reverse name)
            (reverse value)
            earlier
            (some (record s { pairs = record { name = name; value = value } ∷ s.pairs })))
unfolding ini_loop ini_step lacks starts_lhs Option.bind
read_pair [] value rest lhs rhs earlier s ok = ground (arith, ok.starts)
read_pair (x ∷ name) value rest lhs rhs earlier s ok =
    let (other, one_line) = lacks-cons newline x name ok.name_line in
    let (no_equal, no_equals) = lacks-cons b'=' x name ok.name_equals in
    let read : ini_loop ((x ∷ name) ++ (b'=' ∷ (value ++ (newline ∷ rest))))
          (at st_newline lhs rhs earlier (some s))
        ≡ _ =
      ap (ini_loop (name ++ (b'=' ∷ (value ++ (newline ∷ rest)))))
        (starts_lhs-step x name lhs rhs earlier (some s) ok.starts)
      ∙ read_name (value ++ (newline ∷ rest)) rhs earlier name (x ∷ []) (some s) one_line no_equals
      ∙ read_value rest [] earlier value (reverse (x ∷ name)) [] s ok.value_line in
    read
    ∙ ap
        (λ ((n, v) : List ℕ × List ℕ). ini_loop rest (
          at st_newline (reverse (x ∷ name)) (reverse value) earlier
            (some (record s { pairs = record { name = n; value = v } ∷ s.pairs }))))
        (ap (λ n. (n, reverse (reverse value))) (reverse-reverse (x ∷ name))
          ∙ ap (λ v. (x ∷ name, v)) (reverse-reverse value))

read_pairs :
    (ps : List Nvpair) (rest lhs rhs : List ℕ) (earlier : List Section) (s : Section)
    → AllPrintable ps
    → (lhs' : List ℕ) × (rhs' : List ℕ) × (ini_loop
          (print_pairs ps rest)
          (at st_newline lhs rhs earlier (some s))
        ≡ ini_loop rest
            (at st_newline lhs' rhs' earlier (some (record s { pairs = reverse_aux ps s.pairs }))))
unfolding print_pairs
read_pairs [] rest lhs rhs earlier s ok = (lhs, rhs, refl)
read_pairs (p ∷ ps) rest lhs rhs earlier s (one, more) =
    let (lhs', rhs', read) =
      read_pairs ps rest (reverse p.name) (reverse p.value) earlier
        (record s { pairs = p ∷ s.pairs }) more in
    (lhs', rhs', read_pair p.name p.value (print_pairs ps rest) lhs rhs earlier s one ∙ read)

-- The order of the pairs in a section is turned back.
pub turned : Section → Section
turned s = record s { pairs = reverse s.pairs }

read_sections :
    (ss : List Section) (lhs rhs : List ℕ) (earlier : List Section) (cur : Option Section)
    → ArePrintable ss
    → Option.map all_sections (ini_loop (print_sections ss) (at st_newline lhs rhs earlier cur))
      ≡ some (all_sections (at st_newline lhs rhs earlier cur) ++ map turned ss)
unfolding print_sections ini_loop ini_step newline_step Option.bind turned all_sections
read_sections [] lhs rhs earlier cur ok =
    ap some (sym (append-nil (all_sections (at st_newline lhs rhs earlier cur))))
read_sections (s ∷ ss) lhs rhs earlier cur (title, pairs, more) =
    let before = all_sections (at st_newline lhs rhs earlier cur) in
    let title' = reverse (reverse s.title) in
    let (lhs', rhs', read) =
      read_pairs s.pairs (print_sections ss) (reverse s.title) rhs before
        (record { title = title'; pairs = [] }) pairs in
    ap (Option.map all_sections) (
      read_title (newline ∷ print_pairs s.pairs (print_sections ss)) rhs earlier s.title [] cur
        title
      ∙ read)
    ∙ read_sections ss lhs' rhs' before (some (record { title = title'; pairs = reverse s.pairs }))
        more
    ∙ ap some (
        append_assoc before (record { title = title'; pairs = reverse s.pairs } ∷ [])
          (map turned ss)
        ∙ ap (λ t. before ++ record { title = t; pairs = reverse s.pairs } ∷ map turned ss)
            (reverse-reverse s.title))

-- What `print_sections` prints of sections whose titles have no `]`, and whose pairs are printable, `load_ini`
-- reads as these sections, behind those that are there, each with its pairs in the other order.
pub load_ini-print_sections :
    (first ss : List Section)
    → ArePrintable ss
    → load_ini (print_sections ss) first ≡ some (first ++ map turned ss)
unfolding load_ini all_sections
load_ini-print_sections first ss ok = read_sections ss [] [] first none ok
