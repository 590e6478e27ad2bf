-- ===== src/Util/Ini.antt =====
-- The description of a boot image, as blt/util/bootmaker.c reads and prints it. A text is the list of its bytes,
-- none of which is 0.
pub mod Printed
use os_open_blt.Base.{
  same_text, ℕ, Bool, true, false, not, ◌&&◌, ◌||◌, Option, none, some, List, [], ◌∷◌, ◌++◌, ◌==◌,
  leb, if◌then◌else◌, reverse,
}
use mathlib.Core.Option

-- `nvpair`.
pub record Nvpair : Type 0 where
  pub name : List ℕ
  pub value : List ℕ

-- `section`, with its pairs from `firstnv` on.
pub record Section : Type 0 where
  pub title : List ℕ
  pub pairs : List Nvpair

-- The states of `load_ini`.
pub data State : Type 0 where
  st_newline : State
  st_skipline : State
  st_header : State
  st_lhs : State
  st_rhs : State

-- What `load_ini` keeps: the bytes since `lhs` and since `rhs`, the last of them first, the sections before
-- `cur`, and `cur`, which is not set before the first header.
pub record Reader : Type 0 where
  pub state : State
  pub lhs : List ℕ
  pub rhs : List ℕ
  pub earlier : List Section
  pub cur : Option Section

pub all_sections : Reader → List Section
all_sections r = elim r.cur [ none ↦ r.earlier | some s ↦ r.earlier ++ s ∷ [] ]

abbrev pub newline : ℕ
newline = b'\n'

-- `*data == '#' || *data <= ' '`, where a `char` is signed.
unfoldable pub skips : ℕ → Bool
skips x = (x == b'#') || leb x b' ' || leb 128 x

pub newline_step : ℕ → Reader → Reader
newline_step x r =
    if x == newline
    then r
    else (if x == b'['
        then record r { state = st_header; lhs = [] }
        else (if skips x
            then record r { state = st_skipline }
            else record r { state = st_lhs; lhs = x ∷ [] }))

pub header_step : ℕ → Reader → Reader
header_step x r =
    if x == b']'
    then record r {
      state = st_skipline;
      earlier = all_sections r;
      cur = some (record { title = reverse r.lhs; pairs = [] });
    }
    else record r { lhs = x ∷ r.lhs }

pub lhs_step : ℕ → Reader → Reader
lhs_step x r =
    if x == newline
    then record r { state = st_newline }
    else (if x == b'=' then record r { state = st_rhs; rhs = [] } else record r { lhs = x ∷ r.lhs })

-- A pair before the first header goes through a pointer that is not set.
pub rhs_step : ℕ → Reader → Option Reader
rhs_step x r =
    if x == newline
    then Option.map
        (λ (s : Section). record r {
          state = st_newline;
          cur = some (record s {
            pairs = record { name = reverse r.lhs; value = reverse r.rhs } ∷ s.pairs;
          });
        })
        r.cur
    else some (record r { rhs = x ∷ r.rhs })

-- The body of the loop of `load_ini` for the byte at `data`.
pub ini_step : State → ℕ → Reader → Option Reader
ini_step st_skipline x r = some (if x == newline then record r { state = st_newline } else r)
ini_step st_newline x r = some (newline_step x r)
ini_step st_header x r = some (header_step x r)
ini_step st_lhs x r = some (lhs_step x r)
ini_step st_rhs x r = rhs_step x r

pub ini_loop : List ℕ → Reader → Option Reader
ini_loop [] r = some r
ini_loop (x ∷ bytes) r = Option.bind (ini_step r.state x r) (ini_loop bytes)

-- `load_ini` of a file's bytes, with the sections that are there already.
pub load_ini : List ℕ → List Section → Option (List Section)
load_ini bytes first = Option.map all_sections (
    ini_loop bytes (record { state = st_newline; lhs = []; rhs = []; earlier = first; cur = none }))

-- `print_sections`: what is printed for the pairs of a section, and then `rest`.
pub print_pairs : List Nvpair → List ℕ → List ℕ
print_pairs [] rest = rest
print_pairs (p ∷ ps) rest = p.name ++ (b'=' ∷ (p.value ++ (newline ∷ print_pairs ps rest)))

pub print_sections : List Section → List ℕ
print_sections [] = []
print_sections (s ∷ ss) =
    newline ∷ b'[' ∷ (s.title ++ (b']' ∷ newline ∷ print_pairs s.pairs (print_sections ss)))

-- The value of the first pair with a name.
unfoldable pub getval : List Nvpair → List ℕ → Option (List ℕ)
getval [] name = none
getval (p ∷ ps) name = if same_text p.name name then some p.value else getval ps name

unfoldable pub getvaldef : List Nvpair → List ℕ → List ℕ → List ℕ
getvaldef [] name default = default
getvaldef (p ∷ ps) name default =
    if same_text p.name name then p.value else getvaldef ps name default
