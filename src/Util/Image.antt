-- ===== src/Util/Image.antt =====
-- `makeboot` of blt/util/bootmaker.c: a boot image from its description. What `loadfile` reads of the host's
-- files, its `atoi`, and the bytes of the `boot_dir` as the compiler lays it out are parameters; `die` is
-- none. The boot block that is put before an image for a floppy disk is left out.
pub mod Layout
use os_open_blt.Base.{
  same_text, ℕ, zero, suc, ◌+◌, ◌-◌, ◌*◌, ◌/◌, ◌%◌, Bool, true, false, not, Option, none, some,
  List, [], ◌∷◌, ◌++◌, ◌==◌, ltb, if◌then◌else◌, length, take, replicate,
}
use mathlib.Core.Option
use os_open_blt.Vfs.Bootfs.{BootEntry, bootdir_directory}
use os_open_blt.Util.Ini.{Nvpair, Section, getval, getvaldef}

-- The names of values, and the values of `type`.
abbrev pub type_name : List ℕ
type_name = b't' ∷ b'y' ∷ b'p' ∷ b'e' ∷ []

abbrev pub file_name : List ℕ
file_name = b'f' ∷ b'i' ∷ b'l' ∷ b'e' ∷ []

abbrev vaddr_name : List ℕ
vaddr_name = b'v' ∷ b'a' ∷ b'd' ∷ b'd' ∷ b'r' ∷ []

abbrev ventry_name : List ℕ
ventry_name = b'v' ∷ b'e' ∷ b'n' ∷ b't' ∷ b'r' ∷ b'y' ∷ []

abbrev pub none_type : List ℕ
none_type = b'N' ∷ b'O' ∷ b'N' ∷ b'E' ∷ []

abbrev boot_type : List ℕ
boot_type = b'b' ∷ b'o' ∷ b'o' ∷ b't' ∷ []

abbrev code_type : List ℕ
code_type = b'c' ∷ b'o' ∷ b'd' ∷ b'e' ∷ []

abbrev data_type : List ℕ
data_type = b'd' ∷ b'a' ∷ b't' ∷ b'a' ∷ []

abbrev elf32_type : List ℕ
elf32_type = b'e' ∷ b'l' ∷ b'f' ∷ b'3' ∷ b'2' ∷ []

-- `be_type` for a text: BE_TYPE_BOOTSTRAP, CODE, DATA, ELF32 or NONE.
unfoldable pub type_of : List ℕ → ℕ
type_of type =
    if same_text type elf32_type
    then 5
    else (if same_text type data_type
        then 4
        else (if same_text type code_type then 3 else (if same_text type boot_type then 2 else 0)))

-- The entry of the directory itself.
pub directory_entry : BootEntry
directory_entry = record {
  be_name = bootdir_directory;
  be_offset = 0;
  be_type = 1;
  be_size = 1;
  be_vsize = 1;
  be_code_vaddr = 0;
  be_code_ventr = 0;
}

-- The pages that so many bytes take.
pub pages : ℕ → ℕ
pages size = size / 4096 + (if size % 4096 == 0 then 0 else 1)

-- What is written for a file: its bytes, and zeros up to a page.
pub padded : List ℕ → List ℕ
padded raw = raw ++ (if length raw % 4096 == 0 then [] else replicate (4096 - length raw % 4096) 0)

pub write_all : List (List ℕ) → List ℕ
write_all [] = []
write_all (raw ∷ raws) = padded raw ++ write_all raws

module _ (load : List ℕ → Option (List ℕ)) (atoi : List ℕ → ℕ) where
  -- The entry for a section, whose file is placed at a page.
  pub section_entry : Section → List ℕ → ℕ → BootEntry
  section_entry s raw nextpage =
      let type = getvaldef s.pairs type_name none_type in
      let be_size = pages (length raw) in
      let is_code = same_text type boot_type in
      let is_code' = same_text type code_type in
      let zero_text = b'0' ∷ [] in
      record {
        be_name = take 31 s.title;
        be_offset = nextpage;
        be_type = type_of type;
        be_size = be_size;
        be_vsize = if ltb (length raw) be_size then be_size else length raw;
        be_code_vaddr =
            if is_code
            then atoi (getvaldef s.pairs vaddr_name zero_text)
            else (if is_code' then atoi (getvaldef s.pairs vaddr_name zero_text) else 0);
        be_code_ventr =
            if is_code
            then atoi (getvaldef s.pairs ventry_name zero_text)
            else (if is_code' then atoi (getvaldef s.pairs ventry_name zero_text) else 0);
      }

  -- The loop over the sections, with `c` entries before: the entries, and the files' bytes.
  pub make_entries : ℕ → ℕ → List Section → Option (List BootEntry × List (List ℕ))
  make_entries c nextpage [] = some ([], [])
  make_entries c nextpage (s ∷ ss) = Option.bind (getval s.pairs file_name) (λ file.
      Option.bind (load file) (λ raw.
        let entry = section_entry s raw nextpage in
        let rest = make_entries (c + 1) (nextpage + pages (length raw)) ss in
        if entry.be_type == 0
        then none
        else (if c + 1 == 64
            then none
            else Option.map
                (λ ((entries, raws) : List BootEntry × List (List ℕ)).
                  (entry ∷ entries, raw ∷ raws))
                rest)))

  -- The directory and the bytes that are written, for the directory's bytes.
  pub makeboot : (List BootEntry → List ℕ) → List Section → Option (List BootEntry × List ℕ)
  makeboot dir_bytes ss =
      Option.map
        (λ ((entries, raws) : List BootEntry × List (List ℕ)).
          let bdir = directory_entry ∷ entries in (bdir, write_all (dir_bytes bdir ∷ raws)))
        (make_entries 1 1 ss)
