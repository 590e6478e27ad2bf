-- ===== src/Util/Image/Layout.antt =====
-- Where the files are in an image that `makeboot` of blt/util/bootmaker.c writes, and what
-- blt/srv/vfs/bootfs.c reads of it.
use os_open_blt.Base.{
  length-replicate, ℕ, suc, ◌+◌, ◌-◌, ◌*◌, ◌%◌, ◌≤◌, ◌≡◌, refl, ◌∙◌, ap, false, Option, some, List,
  [], ◌∷◌, ◌++◌, ◌==◌, ltb, if◌then◌else◌, length, length-append, get_or, take, drop, replicate,
  arith, Bool-cases, inl, inr, IfReturns, Returns, Returns-map, IfReturns-Returns, ◌<◌,
  IfReturns-bind, IfReturns-if, IfReturns-mapped, drop-append, get_or-drop, drop-suc,
}
use mathlib.Core.Option
use mathlib.Core.Path.{subst}
use mathlib.Core.List.{append_assoc}
use os_open_blt.Vfs.Types.{Superblock}
use os_open_blt.Vfs.Bootfs.{BootEntry, bootfs_inew, bytes_at, read_inode}
use os_open_blt.Vfs.Bootfs.Reads.{contents, read_inode-contents}
use os_open_blt.Util.Ini.{Section, getval, getvaldef}
use os_open_blt.Util.Image.{
  pages, padded, file_name, section_entry, make_entries, write_all, makeboot, type_of, type_name,
  none_type, directory_entry,
}

-- The memory where an image is mapped, 0 behind its end.
abbrev pub memory : List ℕ → ℕ → ℕ
memory image a = get_or image a 0

bytes_at-memory :
    (raw post image : List ℕ) (a : ℕ)
    → drop a image ≡ raw ++ post
    → bytes_at (memory image) a (length raw) ≡ raw
unfolding bytes_at
bytes_at-memory [] post image a is = refl
bytes_at-memory (x ∷ raw) post image a is =
    let next : drop (a + 1) image ≡ raw ++ post =
      (let shift : a + 1 ≡ suc a = omega arith in ap (λ n. drop n image) shift)
      ∙ drop-suc a image
      ∙ ap (drop 1) is in
    ap (λ y. y ∷ bytes_at (memory image) (a + 1) (length raw))
      (get_or-drop a image 0 ∙ ap (λ ys. get_or ys 0 0) is)
    ∙ ap (λ ys. x ∷ ys) (bytes_at-memory raw post image (a + 1) next)

length-padded : (raw : List ℕ) → length (padded raw) ≡ pages (length raw) * 4096
unfolding padded pages
length-padded raw = elim (Bool-cases (length raw % 4096 == 0)) [
  | inl full ↦ rw full (
      let n = length raw in
      length-append raw []
      ∙ (let whole : n % 4096 ≡ 0 = ground (arith, full) in omega (arith, whole)))
  | inr part ↦ rw part (
      let n = length raw in
      length-append raw (replicate (4096 - n % 4096) 0)
      ∙ omega (arith, length-replicate (4096 - n % 4096) 0))
]

pages_le : (n : ℕ) → ltb n (pages n) ≡ false
unfolding pages
pages_le n = ground arith

-- What `bootfs_read` gives of the inode that `bootfs_mount` makes for an entry, with the image mapped: the bytes
-- of a file from the offset on, as many as are asked for and there are.
abbrev pub Reads : List ℕ → BootEntry → List ℕ → Type 0
Reads image e raw =
    (sb : Superblock) (ino n offset : ℕ)
    → sb.sb_bootdir ≡ memory image
    → read_inode sb (bootfs_inew e.be_name e.be_offset e.be_vsize ino) n offset
      ≡ take n (drop offset raw)

bytes-Reads :
    (image raw : List ℕ) (e : BootEntry)
    → bytes_at (memory image) (e.be_offset * 0x1000) e.be_vsize ≡ raw
    → Reads image e raw
unfolding contents bootfs_inew
bytes-Reads image raw e is sb ino n offset mapped =
    read_inode-contents sb (bootfs_inew e.be_name e.be_offset e.be_vsize ino) n offset
    ∙ ap (λ m. take n (drop offset (bytes_at m (e.be_offset * 0x1000) e.be_vsize))) mapped
    ∙ ap (λ xs. take n (drop offset xs)) is

-- A description's sections and the entries of a directory, one by one: the entry has the section's title, cut, and
-- the section's file is what is read of the entry.
abbrev pub Placed : (List ℕ → Option (List ℕ)) → List ℕ → List Section → List BootEntry → Type 0
Placed load image [] [] = Unit {0}
Placed load image [] (e ∷ es) = ⊥
Placed load image (s ∷ ss) [] = ⊥
Placed load image (s ∷ ss) (e ∷ es) =
    ((raw : List ℕ) × (Option.bind (getval s.pairs file_name) load ≡ some raw)
      × (e.be_name ≡ take 31 s.title)
      × Reads image e raw)
    × Placed load image ss es

padded-memory :
    (raw before after : List ℕ) (p : ℕ)
    → length before ≡ p * 0x1000
    → bytes_at (memory (before ++ (padded raw ++ after))) (p * 0x1000) (length raw) ≡ raw
unfolding padded
padded-memory raw before after p at =
    let fill = if length raw % 4096 == 0 then [] else replicate (4096 - length raw % 4096) 0 in
    bytes_at-memory raw (fill ++ after) (before ++ (padded raw ++ after)) (p * 0x1000) (
      subst (λ n. drop n (before ++ (padded raw ++ after)) ≡ padded raw ++ after) at
        (drop-append before (padded raw ++ after))
      ∙ append_assoc raw fill after)

module _ (load : List ℕ → Option (List ℕ)) (atoi : List ℕ → ℕ) where
  make_entries-Placed :
      (ss : List Section) (c p : ℕ)
      → IfReturns
          (λ ((es, raws) : List BootEntry × List (List ℕ)).
            (before : List ℕ)
            → length before ≡ p * 0x1000
            → Placed load (before ++ write_all raws) ss es)
          (make_entries load atoi c p ss)
  unfolding make_entries section_entry Option.bind write_all padded
  make_entries-Placed [] c p = λ before at. tt
  make_entries-Placed (s ∷ ss) c p =
      let Q : List BootEntry × List (List ℕ) → Type 0 =
        λ ((es, raws) : List BootEntry × List (List ℕ)).
          (before : List ℕ)
          → length before ≡ p * 0x1000
          → Placed load (before ++ write_all raws) (s ∷ ss) es in
      IfReturns-bind Q (getval s.pairs file_name) _ (λ file named.
        IfReturns-bind Q (load file) _ (λ raw loaded.
          IfReturns-if Q ((section_entry load atoi s raw p).be_type == 0) _ _ tt (
            IfReturns-if Q (c + 1 == 64) _ _ tt (
              IfReturns-mapped Q (make_entries load atoi (c + 1) (p + pages (length raw)) ss) _
                (make_entries-Placed ss (c + 1) (p + pages (length raw)))
                (λ (es, raws) rest before at.
                  let all = before ++ (padded raw ++ write_all raws) in
                  let vsize : (section_entry load atoi s raw p).be_vsize ≡ length raw =
                    rw (pages_le (length raw)) refl in
                  (
                    (
                      raw,
                      rw named loaded,
                      refl,
                      bytes-Reads all raw (section_entry load atoi s raw p) (
                          ap (λ n. bytes_at (memory all) (p * 0x1000) n) vsize
                          ∙ padded-memory raw before (write_all raws) p at),
                    ),
                    subst (λ image. Placed load image ss es)
                        (append_assoc before (padded raw) (write_all raws))
                        (rest (before ++ padded raw) (
                          omega (arith, at, length-append before (padded raw), length-padded raw))),
                  ))))))

  -- Every section names a file that is read, and has a type that is known.
  abbrev pub Loads : List Section → Type 0
  Loads [] = Unit {0}
  Loads (s ∷ ss) =
      ((file : List ℕ) × (raw : List ℕ) × (getval s.pairs file_name ≡ some file)
        × (load file ≡ some raw)
        × ((type_of (getvaldef s.pairs type_name none_type) == 0) ≡ false))
      × Loads ss

  make_entries-some :
      (ss : List Section) (c p : ℕ)
      → c + length ss < 64
      → Loads ss
      → (r : List BootEntry × List (List ℕ)) × (make_entries load atoi c p ss ≡ some r)
  unfolding make_entries section_entry Option.bind
  make_entries-some [] c p few loads = (([], []), refl)
  make_entries-some (s ∷ ss) c p few ((file, raw, named, loaded, known), loads) =
      let not_full : (c + 1 == 64) ≡ false = ground (arith, few) in
      let (r, made) =
        make_entries-some ss (c + 1) (p + pages (length raw)) (omega (arith, few)) loads in
      (
        (section_entry load atoi s raw p ∷ r.0, raw ∷ r.1),
        rw (named, loaded, known, not_full, made),
      )

  -- For a description of at most 62 sections, of which each names a file that is read and has a known type,
  -- `makeboot` writes an image. Every section has its entry in the directory of the image, in the same order
  -- behind the first: with the section's title, cut to 31 bytes. Where the image is mapped, `bootfs_read` of
  -- the inode for the entry gives the bytes of the section's file from the offset on, as many as are asked for
  -- and there are. The directory is laid out in 4096 bytes.
  pub makeboot-Placed :
      (dir_bytes : List BootEntry → List ℕ) (ss : List Section)
      → ((es : List BootEntry) → length (dir_bytes es) ≡ 0x1000)
      → length ss ≤ 62
      → Loads ss
      → Returns
          (λ ((es, image) : List BootEntry × List ℕ). Placed load image ss (drop 1 es))
          (makeboot load atoi dir_bytes ss)
  unfolding makeboot write_all pages
  makeboot-Placed dir_bytes ss one_page few loads =
      let (r, made) = make_entries-some ss 1 1 (omega (arith, few)) loads in
      Returns-map (make_entries load atoi 1 1 ss)
        (λ ((es, image) : List BootEntry × List ℕ). Placed load image ss (drop 1 es)) _
        (λ (es, raws) rest.
          let dir = dir_bytes (directory_entry ∷ es) in
          rest (padded dir)
            (length-padded dir ∙ ap (λ n. pages n * 4096) (one_page (directory_entry ∷ es))))
        (IfReturns-Returns _ (make_entries load atoi 1 1 ss) r made (make_entries-Placed ss 1 1))
