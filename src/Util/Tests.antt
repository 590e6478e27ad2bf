-- ===== src/Util/Tests.antt =====
-- A description with one section, the image for it, and the theorems on them.
use os_open_blt.Base.{
  same_text, length-replicate, ℕ, ◌≡◌, refl, Option, some, List, [], ◌∷◌, ◌++◌, drop, map,
  replicate, arith, Returns,
}
use os_open_blt.Vfs.Bootfs.{BootEntry}
use os_open_blt.Util.Ini.{Section, getval, getvaldef, load_ini, print_sections, skips}
use os_open_blt.Util.Ini.Printed.{turned, load_ini-print_sections, lacks, starts_lhs}
use os_open_blt.Util.Image.{makeboot, type_of, type_name, file_name}
use os_open_blt.Util.Image.Layout.{Placed, Loads, makeboot-Placed}

-- [init], type=elf32, file=i
abbrev init_section : Section
init_section = record {
  title = b'i' ∷ b'n' ∷ b'i' ∷ b't' ∷ [];
  pairs =
      record { name = type_name; value = b'e' ∷ b'l' ∷ b'f' ∷ b'3' ∷ b'2' ∷ [] }
      ∷ record { name = file_name; value = b'i' ∷ [] }
      ∷ [];
}

load_ini-print_sections_example :
    load_ini (print_sections (init_section ∷ [])) [] ≡ some ([] ++ map turned (init_section ∷ []))
unfolding lacks starts_lhs skips
load_ini-print_sections_example = load_ini-print_sections [] (init_section ∷ []) (
  refl,
  (
    record { starts = refl; name_line = refl; name_equals = refl; value_line = refl },
    (record { starts = refl; name_line = refl; name_equals = refl; value_line = refl }, tt),
  ),
  tt,
)

-- Every file has three bytes.
abbrev load_any : List ℕ → Option (List ℕ)
load_any name = some (7 ∷ 8 ∷ 9 ∷ [])

abbrev no_number : List ℕ → ℕ
no_number text = 0

abbrev zeros : List BootEntry → List ℕ
zeros es = replicate 0x1000 0

init_section-Loads : Loads load_any no_number (init_section ∷ [])
unfolding getval getvaldef same_text type_of
init_section-Loads = ((b'i' ∷ [], 7 ∷ 8 ∷ 9 ∷ [], refl, refl, refl), tt)

makeboot-Placed_example :
    Returns
      (λ ((es, image) : List BootEntry × List ℕ).
        Placed load_any image (init_section ∷ []) (drop 1 es))
      (makeboot load_any no_number zeros (init_section ∷ []))
makeboot-Placed_example =
    makeboot-Placed load_any no_number zeros (init_section ∷ []) (λ es. length-replicate 0x1000 0)
      (omega arith) init_section-Loads
