-- ===== src/Kernel/Memory/Pages.antt =====
-- The list of free physical pages of blt/kernel/memory.c.
use os_open_blt.Base.{
  ℕ, ◌≡◌, ◌≢◌, refl, false, ◌==◌, Returns, Returns-mono, none, List, [], ◌∷◌, arith, mem, Distinct,
  Chain, Chain-start, Chain-frame, ne_of_mem,
}
use os_open_blt.Base.Int.{pos, ◌+ℤ◌, ◌-ℤ◌}
use os_open_blt.Kernel.Memory.{Memory, getpage, putpage}

-- The free pages, first one first.
pub record PagesOk (m : Memory) (pages : List ℕ) : Type 0 where
  pub chain : Chain m.pagelist m.freepage pages
  pub distinct : Distinct pages

-- The page is handed out, and the others stay free; the count of used pages goes up by one.
pub record Got (m : Memory) (page : ℕ) (pages : List ℕ) (r : ℕ × Memory) : Type 0 where
  pub handed : r.0 ≡ page
  pub left : PagesOk r.1 pages
  pub used : r.1.used_pages ≡ m.used_pages +ℤ pos 1
  pub pools : r.1.pool ≡ m.pool

-- `getpage` hands out the first free page and leaves the others free.
pub getpage-Got :
    (m : Memory) (page : ℕ) (pages : List ℕ)
    → PagesOk m (page ∷ pages)
    → Returns (Got m page pages) (getpage m)
unfolding getpage
getpage-Got m page pages ok =
    let some_page : (m.freepage == 0) ≡ false = ground (arith, ok.chain) in
    rw some_page (record {
      handed = ok.chain.0;
      left = record {
        chain = Chain-start _ pages (ground (arith, ok.chain)) ok.chain.2;
        distinct = ok.distinct.1;
      };
      used = refl;
      pools = refl;
    })

-- With no free page it panics.
pub getpage-empty : (m : Memory) → PagesOk m [] → getpage m ≡ none
unfolding getpage
getpage-empty m ok = ground (arith, ok.chain)

pub given_back :
    (m : Memory) (page : ℕ) (pages : List ℕ)
    → PagesOk m pages
    → page ≢ 0
    → mem page pages ≡ false
    → PagesOk (putpage page m) (page ∷ pages)
unfolding putpage
given_back m page pages ok real new = record {
  chain = (
    refl,
    real,
    Chain-start _ pages (ground arith) (
        Chain-frame _ _ m.freepage pages (λ x i. ground (arith, ne_of_mem page x pages new i))
          ok.chain),
  );
  distinct = (new, ok.distinct);
}

-- A page that is given back is the next one handed out, and the free pages and the count of used ones are
-- then what they were. The page is not the page 0, and was not free.
pub getpage-putpage :
    (m : Memory) (page : ℕ) (pages : List ℕ)
    → PagesOk m pages
    → page ≢ 0
    → mem page pages ≡ false
    → PagesOk (putpage page m) (page ∷ pages)
      × Returns
          (λ r.
            (r.0 ≡ page) × PagesOk r.1 pages × (r.1.used_pages ≡ m.used_pages -ℤ pos 1 +ℤ pos 1))
          (getpage (putpage page m))
unfolding putpage
getpage-putpage m page pages ok real new =
    let freed = given_back m page pages ok real new in
    (
      freed,
      Returns-mono (getpage (putpage page m)) (λ r g. (g.handed, g.left, g.used))
          (getpage-Got (putpage page m) page pages freed),
    )
