-- ===== src/Kernel/Memory/Pools.antt =====
-- The pools of small blocks of blt/kernel/memory.c.
use mathlib.Core.Option
use os_open_blt.Base.{
  ℕ, ◌<◌, ◌≡◌, ◌≢◌, refl, true, false, ◌==◌, leb, ltb, List, ◌∷◌, arith, mem, Distinct, Chain,
  Chain-start, Chain-frame, ne_of_mem, length, Returns, Returns-bind, update,
}
use os_open_blt.Base.Int.{pos}
use os_open_blt.Kernel.Memory.{Pool, Memory, kfree_p, kmalloc_p, recycle, set_pool}

-- The free blocks of a pool, first one first, as many as it counts.
pub record PoolOk (word : ℕ → ℕ) (p : Pool) (free : List ℕ) : Type 0 where
  pub chain : Chain word p.free_chain free
  pub distinct : Distinct free
  pub counted : p.free_count ≡ pos (length free)

-- Pool `i` has the block in front of its free ones, and every pool that the block is not in keeps its own.
pub record Freed (m : Memory) (i block : ℕ) (free : List ℕ) (m1 : Memory) : Type 0 where
  pub front : PoolOk m1.word (m1.pool i) (block ∷ free)
  pub others :
      (j : ℕ) (its : List ℕ)
      → j ≢ i
      → mem block its ≡ false
      → PoolOk m.word (m.pool j) its
      → PoolOk m1.word (m1.pool j) its

framed :
    (word : ℕ → ℕ) (p q : Pool) (block v : ℕ) (its : List ℕ)
    → q ≡ p
    → mem block its ≡ false
    → PoolOk word p its
    → PoolOk (update word block v) q its
unfolding update
framed word p q block v its e new ok = rw e (record {
  chain =
      Chain-frame word _ p.free_chain its (λ x i. ground (arith, ne_of_mem block x its new i))
        ok.chain;
  distinct = ok.distinct;
  counted = ok.counted;
})

-- `kfreeP` puts the block in front of the free blocks of its pool and leaves the other pools alone.
pub kfree_p-Freed :
    (m : Memory) (i block : ℕ) (free : List ℕ)
    → i < 7
    → block ≢ 0
    → mem block free ≡ false
    → PoolOk m.word (m.pool i) free
    → Returns (Freed m i block free) (kfree_p i block m)
unfolding kfree_p set_pool
kfree_p-Freed m i block free low real new ok =
    let small : ltb 7 i ≡ false = ground arith in
    let hit : (i == i) ≡ true = ground arith in
    rw small (record {
      front = rw hit (record {
        chain = (
          refl,
          real,
          Chain-start _ free (ground arith) (
              Chain-frame m.word _ (m.pool i).free_chain free
                (λ x h. ground (arith, ne_of_mem block x free new h)) ok.chain),
        );
        distinct = (new, ok.distinct);
        counted = ground (arith, ok.counted);
      });
      others = λ j its other out its_ok.
          framed m.word (m.pool j) _ block _ its (ground arith) out its_ok;
    })

-- The block is handed out, and the other free blocks stay.
pub record Handed (i block : ℕ) (free : List ℕ) (r : ℕ × Memory) : Type 0 where
  pub which : r.0 ≡ block
  pub left : PoolOk r.1.word (r.1.pool i) free

-- `kmallocP` hands out the first free block of the pool, if it has one.
pub kmalloc_p-Handed :
    (m : Memory) (i block : ℕ) (free : List ℕ)
    → i < 7
    → PoolOk m.word (m.pool i) (block ∷ free)
    → Returns (Handed i block free) (kmalloc_p i m)
unfolding kmalloc_p recycle set_pool
kmalloc_p-Handed m i block free low ok =
    let small : leb 7 i ≡ false = ground arith in
    let hit : (i == i) ≡ true = ground arith in
    let there : ((m.pool i).free_chain == 0) ≡ false = ground (arith, ok.chain) in
    rw small (
      rw there (record {
        which = ground (arith, ok.chain.0);
        left = rw hit (record {
          chain = Chain-start _ free (ground (arith, ok.chain.0)) ok.chain.2;
          distinct = ok.distinct.1;
          counted = ground (arith, ok.counted);
        });
      }))

-- A block that is freed is the next one handed out of its pool, whose free blocks are then what they
-- were. The block is not NULL, and was not free.
pub kmalloc_p-kfree_p :
    (m : Memory) (i block : ℕ) (free : List ℕ)
    → i < 7
    → block ≢ 0
    → mem block free ≡ false
    → PoolOk m.word (m.pool i) free
    → Returns (Handed i block free) (Option.bind (kfree_p i block m) (kmalloc_p i))
kmalloc_p-kfree_p m i block free low real new ok =
    Returns-bind (kfree_p i block m) (Handed i block free) (kmalloc_p i)
      (λ m1 f. kmalloc_p-Handed m1 i block free low f.front)
      (kfree_p-Freed m i block free low real new ok)
