-- ===== src/Kernel/Area/Pages.antt =====
-- The pages of areas of blt/kernel/aspace.c.
use mathlib.Core.List.{reverse_aux}
use mathlib.Core.Option
use os_open_blt.Base.{
  some, ap, fun_ext, ltb, ℕ, zero, suc, ◌+◌, ◌*◌, ◌%◌, ◌^◌, ◌<◌, ◌≤◌, ◌≡◌, ◌⊎◌, ◌∙◌, inl, refl,
  if◌then◌else◌, true, false, ◌==◌, List, [], ◌∷◌, ◌++◌, arith, mem, Distinct, length, Returns,
  Returns-bind, Returns-map, update, get_or, ne_of_mem,
}
use os_open_blt.Kernel.Memory.{Memory, putpage, getpage}
use os_open_blt.Kernel.Memory.Pages.{PagesOk, getpage-Got, given_back}
use os_open_blt.Kernel.Aspace.{set_entry, aspace_map}
use os_open_blt.Kernel.Area.{map_area, put_pages}

-- The area has the given pages, mapped one after the other from `at` on for the user to read and write;
-- the other pages of memory stay free, and the other entries of the table as they were.
pub record Mapped (at : ℕ) (pages rest : List ℕ) (ptab : ℕ → ℕ) (r : List ℕ × (ℕ → ℕ) × Memory)
    : Type 0 where
  pub given : r.0 ≡ pages
  pub entries : (i : ℕ) → i < length pages → r.1 (at + i) ≡ get_or pages i 0 * 4096 % 2 ^ 32 + 7
  pub others : (x : ℕ) → (x < at) ⊎ (at + length pages ≤ x) → r.1 x ≡ ptab x
  pub left : PagesOk r.2 rest

-- The table with a page mapped.
with_page : ℕ → ℕ → (ℕ → ℕ) → ℕ → ℕ
with_page page at ptab x = if x == at then page * 4096 % 2 ^ 32 + 7 else ptab x

aspace_map-one :
    (page at : ℕ) (ptab : ℕ → ℕ)
    → at < 1024
    → aspace_map page at 1 7 ptab ≡ some (with_page page at ptab)
unfolding aspace_map set_entry update Option.bind with_page
aspace_map-one page at ptab bound =
    let within : ltb (at + 0) 1024 ≡ true = ground (arith, bound) in
    rw within (ap some (fun_ext (λ x. ground arith)))

with_page-at :
    (page at : ℕ) (ptab : ℕ → ℕ) (x : ℕ)
    → with_page page at ptab x ≡ (if x == at then page * 4096 % 2 ^ 32 + 7 else ptab x)
unfolding with_page
with_page-at page at ptab x = refl

entries-cons :
    (page q : ℕ) (pages rest : List ℕ) (at : ℕ) (ptab : ℕ → ℕ) (r : List ℕ × (ℕ → ℕ) × Memory)
    → q ≡ page
    → Mapped (at + 1) pages rest (with_page q at ptab) r
    → (i : ℕ) → i < suc (length pages)
    → r.1 (at + i) ≡ get_or (page ∷ pages) i 0 * 4096 % 2 ^ 32 + 7
entries-cons page q pages rest at ptab r same tail zero low =
    let hit : (at + 0 == at) ≡ true = ground arith in
    tail.others (at + 0) (inl (omega arith)) ∙ rw (with_page-at q at ptab (at + 0), hit, same) refl
entries-cons page q pages rest at ptab r same tail (suc i) low =
    let next : at + suc i ≡ at + 1 + i = omega arith in rw next (tail.entries i (omega arith))

Mapped-cons :
    (page q : ℕ) (pages rest : List ℕ) (at : ℕ) (ptab : ℕ → ℕ) (r : List ℕ × (ℕ → ℕ) × Memory)
    → q ≡ page
    → Mapped (at + 1) pages rest (with_page q at ptab) r
    → Mapped at (page ∷ pages) rest ptab (q ∷ r.0, r.1, r.2)
Mapped-cons page q pages rest at ptab r same tail = record {
  given = rw (same, tail.given) refl;
  entries = entries-cons page q pages rest at ptab r same tail;
  others = λ x out. ground (arith, tail.others x, with_page-at q at ptab x);
  left = tail.left;
}

-- The loop of `area_create` gives the area as many free pages as it asks for, if there are as many, and
-- maps them in their order, where they end within the 1024 entries of the page table.
pub map_area-Mapped :
    (pages rest : List ℕ) (p at : ℕ) (ptab : ℕ → ℕ) (m : Memory)
    → at + length pages ≤ 1024
    → PagesOk m (pages ++ rest)
    → Returns (Mapped at pages rest ptab) (map_area (length pages) false p at ptab m)
unfolding map_area Option.bind
map_area-Mapped [] rest p at ptab m fits ok = record {
  given = refl;
  entries = λ i low. absurd (omega arith);
  others = λ x out. refl;
  left = ok;
}
map_area-Mapped (page ∷ pages) rest p at ptab m fits ok =
    Returns-bind (getpage m) (Mapped at (page ∷ pages) rest ptab) _
      (λ (q, m1) got. rw (aspace_map-one q at ptab (omega (arith, fits))) (
        Returns-map (map_area (length pages) false (p + 1) (at + 1) (with_page q at ptab) m1)
          (Mapped at (page ∷ pages) rest ptab) (λ (ps, t, m2). (q ∷ ps, t, m2))
          (λ r tail. Mapped-cons page q pages rest at ptab r got.handed tail)
          (map_area-Mapped pages rest (p + 1) (at + 1) (with_page q at ptab) m1
            (omega (arith, fits)) got.left)))
      (getpage-Got m page (pages ++ rest) ok)

-- What `area_destroy` gives back with the last area of a group is free again, the last page first. No
-- page is given back twice, none was free, and none is
-- page 0.
pub put_pages-PagesOk :
    (pages rest : List ℕ) (m : Memory)
    → PagesOk m rest
    → Distinct (0 ∷ pages)
    → ((x : ℕ) → mem x pages ≡ true → mem x rest ≡ false)
    → PagesOk (put_pages pages m) (reverse_aux pages rest)
unfolding put_pages
put_pages-PagesOk [] rest m ok new out = ok
put_pages-PagesOk (page ∷ pages) rest m ok new out =
    put_pages-PagesOk pages (page ∷ rest) (putpage page m)
      (given_back m page rest ok (ground (arith, new)) (out page (ground arith)))
      (ground (arith, new), new.1.1)
      (λ x i. ground (arith, out x, ne_of_mem page x pages (ground (arith, new)) i))
