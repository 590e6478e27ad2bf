-- ===== src/Kernel/Aspace/Spans.antt =====
-- The search for free virtual pages of blt/kernel/aspace.c.
use os_open_blt.Base.{
  ℕ, zero, suc, ◌+◌, ◌-◌, ◌<◌, ◌≤◌, ◌≡◌, ◌≢◌, ◌⊎◌, inl, inr, true, false, refl, ◌==◌, ltb, ◌||◌,
  arith, if◌then◌else◌, Bool-cases,
}
use os_open_blt.Kernel.Aspace.{span_from, locate_span}

-- From `r` on, as many pages as wanted are free and below `stop`, or all pages up to `stop` are.
abbrev pub Free : (ℕ → ℕ) → ℕ → ℕ → ℕ → Type 0
Free map r len stop = (j : ℕ) → r ≤ j → j < r + len → j < stop → map j ≡ 0

-- What the loop has found so far: `found` free pages that end before `start`.
record Run (map : ℕ → ℕ) (start found foundat : ℕ) : Type 0 where
  ends : ((found ≡ 0) × (foundat ≡ 0)) ⊎ (foundat + found ≡ start)
  free : (j : ℕ) → foundat ≤ j → j < foundat + found → map j ≡ 0

one_more :
    (map : ℕ → ℕ) (start found foundat : ℕ)
    → Run map start found foundat
    → Run map
        (start + 1)
        (if map start == 0 then found + 1 else 0)
        (if map start == 0 then (if found == 0 then start else foundat) else 0)
one_more map start found foundat run = record {
  ends = ground (arith, run.ends);
  free = λ j lo hi. ground (arith, run.ends, run.free j);
}

span_from-Free :
    (left : ℕ) (map : ℕ → ℕ) (start len found foundat : ℕ)
    → Run map start found foundat
    → span_from left map start len found foundat ≢ 0
    → Free map (span_from left map start len found foundat) len (start + left)
unfolding span_from
span_from-Free zero map start len found foundat run there =
    λ j lo hi end. run.free j lo (ground (arith, run.ends))
span_from-Free (suc left) map start len found foundat run there =
    elim (Bool-cases (ltb found len)) [
      | inl more ↦ rw more (λ j lo hi end.
          span_from-Free left map (start + 1) len _ _ (one_more map start found foundat run)
            (rw more at there) j lo hi (omega arith))
      | inr enough ↦ rw enough (λ j lo hi end. run.free j lo (ground arith))
    ]

-- A span that `locate_span` finds is free, from its first page to its last or to the end of the page
-- table, whichever comes first. (It returns 0 if it finds none.)
pub locate_span-Free :
    (map : ℕ → ℕ) (start len : ℕ)
    → locate_span map start len ≢ 0
    → Free map (locate_span map start len) len 1024
unfolding locate_span
locate_span-Free map start len there =
    let from = if ltb start 1 || ltb 1023 start then 512 else start in
    λ j lo hi end.
      span_from-Free (1024 - from) map from len 0 0
        (record { ends = inl (refl, refl); free = λ i a b. absurd (omega arith) }) there j lo hi
        (omega arith)

span_from-last :
    (left : ℕ) (map : ℕ → ℕ) (start len : ℕ)
    → start + left ≡ 1023
    → ((j : ℕ) → start ≤ j → j < 1023 → map j ≢ 0)
    → map 1023 ≡ 0
    → 0 < len
    → span_from (suc left) map start len 0 0 ≡ 1023
unfolding span_from
span_from-last zero map start len at used free some_page =
    let last : start ≡ 1023 = omega arith in
    let wanted : ltb 0 len ≡ true = ground arith in
    let there : (map 1023 == 0) ≡ true = ground arith in rw (last, wanted, there) refl
span_from-last (suc left) map start len at used free some_page =
    let wanted : ltb 0 len ≡ true = ground arith in
    let taken : (map start == 0) ≡ false = ground (arith, used start) in
    rw (wanted, taken)
      (span_from-last left map (start + 1) len (omega arith) (λ j lo hi. used j (omega arith) hi)
        free some_page)

-- When the last page of the table is the only free one from the start on, `locate_span` returns it, however
-- many pages are wanted, if any.
pub locate_span-last :
    (map : ℕ → ℕ) (start len : ℕ)
    → 0 < start
    → start ≤ 1023
    → ((j : ℕ) → start ≤ j → j < 1023 → map j ≢ 0)
    → map 1023 ≡ 0
    → 0 < len
    → locate_span map start len ≡ 1023
unfolding locate_span
locate_span-last map start len low high used free some_page =
    let below : ltb start 1 ≡ false = ground arith in
    let above : ltb 1023 start ≡ false = ground arith in
    let left : 1024 - start ≡ suc (1023 - start) = omega arith in
    rw (below, above, left)
      (span_from-last (1023 - start) map start len (omega arith) used free some_page)
