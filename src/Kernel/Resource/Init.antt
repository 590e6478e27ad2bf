-- ===== src/Kernel/Resource/Init.antt =====
-- `rsrc_init` of blt/kernel/resource.c sets up a table in which every entry but the first is free.
use os_open_blt.Base.{
  ℕ, zero, suc, ◌+◌, ◌<◌, ◌≤◌, ◌≡◌, refl, arith, ltb, leb, if◌then◌else◌, ◌&&◌, Chain, Chain-start,
  upto, mem-upto, Distinct-upto, update, ap, ◌∙◌,
}
use os_open_blt.Kernel.State.{Kernel}
use os_open_blt.Kernel.Resource.{rsrc_init, null_ready, clear_entries}
use os_open_blt.Kernel.Resource.Table.{TableOk}

-- After the loop the entries from `i` on point to the null resource and each to the next one.
record Cleared (left i : ℕ) (k k' : Kernel) : Type 0 where
  next : (j : ℕ) → k'.rmap_next j ≡ (if leb i j && ltb j (i + left) then j + 1 else k.rmap_next j)
  resource :
      (j : ℕ)
      → k'.rmap_resource j
        ≡ (if leb i j && ltb j (i + left) then k.null_resource else k.rmap_resource j)
  null_resource : k'.null_resource ≡ k.null_resource
  rsrc : k'.rsrc ≡ k.rsrc
  rfree : k'.rfree ≡ k.rfree
  rmax : k'.rmax ≡ k.rmax

clear_entries-Cleared : (left i : ℕ) (k : Kernel) → Cleared left i k (clear_entries left i k)
unfolding clear_entries update
clear_entries-Cleared zero i k = record {
  next = λ j. ground arith;
  resource = λ j. ground arith;
  null_resource = refl;
  rsrc = refl;
  rfree = refl;
  rmax = refl;
}
clear_entries-Cleared (suc left) i k =
    let rest = clear_entries-Cleared left (i + 1) (record k {
      rmap_resource = update k.rmap_resource i k.null_resource;
      rmap_next = update k.rmap_next i (i + 1);
    }) in
    record {
      next = λ j. ground (arith, rest.next j);
      resource = λ j. ground (arith, rest.resource j);
      null_resource = rest.null_resource;
      rsrc = rest.rsrc;
      rfree = rest.rfree;
      rmax = rest.rmax;
    }

upto-Chain :
    (next : ℕ → ℕ) (s n : ℕ)
    → 0 < s
    → ((j : ℕ) → s ≤ j → j < s + n → next j ≡ j + 1)
    → next (s + n) ≡ 0
    → Chain next s (upto s (suc n))
upto-Chain next s zero pos step last = (refl, ground arith, ground arith)
upto-Chain next s (suc n) pos step last = (
  refl,
  ground arith,
  Chain-start next (upto (s + 1) (suc n)) (step s (omega arith) (omega arith)) (
      upto-Chain next (s + 1) n (omega arith) (λ j a b. step j (omega arith) (omega arith))
        (ap next (omega arith) ∙ last)),
)

-- Whatever was in memory, `rsrc_init` of a table of two entries or more leaves every entry from 1 on
-- free, in order, and meets the invariant of the table.
pub rsrc_init-TableOk : (n : ℕ) (k : Kernel) → TableOk (rsrc_init (suc (suc n)) k) (upto 1 (suc n))
unfolding rsrc_init
rsrc_init-TableOk n k =
    let c = clear_entries-Cleared (suc (suc n)) 0 (null_ready (suc (suc n)) k) in
    record {
      chain =
          Chain-start _ (upto 1 (suc n)) c.rfree
            (upto-Chain _ 1 n (omega arith) (λ j a b. ground (arith, c.next j)) (ground arith));
      distinct = Distinct-upto 1 (suc n);
      below = λ j m. ground (arith, mem-upto j 1 (suc n), c.rmax);
      vacant = λ j m. ground (arith, mem-upto j 1 (suc n), c.resource j, c.null_resource);
      zeroth = ground (arith, c.resource 0, c.null_resource);
      null_type = ground (arith, c.rsrc, c.null_resource);
      known = λ j low nz out. ground (arith, mem-upto j 1 (suc n), c.rmax);
    }
