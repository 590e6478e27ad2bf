-- ===== src/Libblt/Hash/RoundTrip.antt =====
-- What `hashtable_insert` of blt/lib/libblt/hash.c puts in, `hashtable_lookup` finds.
use mathlib.Core.Option
use os_open_blt.Base.{
  ℕ, zero, suc, ◌+◌, ◌<◌, ◌≡◌, inl, inr, refl, true, false, not, ◌&&◌, ◌==◌, some, Returns, update,
  Bool-cases, arith, ap, ◌∙◌,
}
use os_open_blt.Libblt.Hash.{
  Node, Table, table_size, hash, step_back, free_slot, insert_slot, put_node, insert_here,
  find_slot, lookup_slot, hashtable_lookup, hashtable_insert, is_full,
}

-- No slot in use has the key.
abbrev pub Absent : ℕ → (ℕ → Node) → Type 0
Absent key table =
    (j : ℕ) → (table j).valid ≡ true → (table j).dirty ≡ false → ((table j).key == key) ≡ false

found_here :
    (fuel : ℕ) (table : ℕ → Node) (size key i : ℕ)
    → (table i).valid ≡ true
    → (table i).dirty ≡ false
    → (table i).key ≡ key
    → find_slot (suc fuel) table size key i ≡ some (some i)
unfolding find_slot
found_here fuel table size key i v d k =
    let same : ((table i).key == key) ≡ true = ground (arith, k) in rw (v, same, d) refl

at_slot :
    (fuel size key i j : ℕ) (node : Node) (table : ℕ → Node)
    → node.valid ≡ true
    → node.dirty ≡ false
    → node.key ≡ key
    → i ≡ j
    → find_slot (suc fuel) (update table j node) size key i ≡ some (some j)
unfolding update
at_slot fuel size key i j node table v d k same =
    let hit : (i == j) ≡ true = ground arith in
    let here : update table j node i ≡ node = rw hit refl in
    found_here fuel (update table j node) size key i (rw here v) (rw here d) (rw here k)
    ∙ ap (λ (x : ℕ). some (some x)) same

passed_by :
    (fuel : ℕ) (table : ℕ → Node) (size key i : ℕ)
    → (table i).valid ≡ true
    → ((table i).key == key && not (table i).dirty) ≡ false
    → find_slot (suc fuel) table size key i ≡ find_slot fuel table size key (step_back key size i)
unfolding find_slot
passed_by fuel table size key i v other = rw (v, other) refl

not_it :
    (key : ℕ) (table : ℕ → Node) (i : ℕ)
    → Absent key table
    → (table i).valid ≡ true
    → ((table i).key == key && not (table i).dirty) ≡ false
not_it key table i absent there = elim (Bool-cases (table i).dirty) [
  | inl gone ↦ ground (arith, gone)
  | inr live ↦ ground (arith, absent i there live)
]

-- A walk comes to the node at `j`, if it does so from the next slot on.
found_from :
    (fuel size key i j : ℕ) (node : Node) (table : ℕ → Node)
    → Absent key table
    → node.valid ≡ true
    → node.dirty ≡ false
    → node.key ≡ key
    → (table i).valid ≡ true
    → find_slot fuel (update table j node) size key (step_back key size i) ≡ some (some j)
    → find_slot (suc fuel) (update table j node) size key i ≡ some (some j)
unfolding update
found_from fuel size key i j node table absent v d k there next = elim (Bool-cases (i == j)) [
  | inl hit ↦ at_slot fuel size key i j node table v d k (ground arith)
  | inr miss ↦
      let here : update table j node i ≡ table i = rw miss refl in
      passed_by fuel (update table j node) size key i (rw here there)
        (rw here (not_it key table i absent there))
      ∙ next
]

-- The walk that found a free slot finds the node that is put there.
free_slot-found :
    (fuel size key i j : ℕ) (node : Node) (table : ℕ → Node)
    → Absent key table
    → node.valid ≡ true
    → node.dirty ≡ false
    → node.key ≡ key
    → free_slot fuel table size key i ≡ some j
    → find_slot fuel (update table j node) size key (step_back key size i) ≡ some (some j)
unfolding free_slot update
free_slot-found zero size key i j node table absent v d k found = absurd cc
free_slot-found (suc fuel) size key i j node table absent v d k found =
    let next = step_back key size i in
    elim (Bool-cases ((table next).valid && not (table next).dirty)) [
      | inl used ↦
          found_from fuel size key next j node table absent v d k (ground (arith, used))
            (free_slot-found fuel size key next j node table absent v d k (rw used at found))
      | inr free ↦
          let same : some next ≡ some j = rw free at found in
          at_slot fuel size key next j node table v d k (ground (arith, same))
    ]

-- The slot after `n` steps of the walk of the key from `i`.
abbrev pub walk : ℕ → ℕ → ℕ → ℕ → ℕ
walk key size i zero = i
walk key size i (suc n) = walk key size (step_back key size i) n

free_slot-some :
    (fuel size key i n : ℕ) (table : ℕ → Node)
    → n < fuel
    → ((table (walk key size (step_back key size i) n)).valid
        && not (table (walk key size (step_back key size i) n)).dirty)
      ≡ false
    → (j : ℕ) × (free_slot fuel table size key i ≡ some j)
unfolding free_slot
free_slot-some zero size key i n table low free = absurd (omega arith)
free_slot-some (suc fuel) size key i zero table low free = (step_back key size i, rw free refl)
free_slot-some (suc fuel) size key i (suc n) table low free =
    let next = step_back key size i in
    elim (Bool-cases ((table next).valid && not (table next).dirty)) [
      | inl used ↦ rw used (free_slot-some fuel size key next n table (omega arith) free)
      | inr here ↦ (next, rw here refl)
    ]

insert_slot-found :
    (key j : ℕ) (t : Table) (node : Node)
    → Absent key t.table
    → node.valid ≡ true
    → node.dirty ≡ false
    → node.key ≡ key
    → insert_slot key t ≡ some j
    → find_slot
        (table_size t.size_index + 1)
        (update t.table j node)
        t.size_index
        key
        (hash key t.size_index)
      ≡ some (some j)
unfolding insert_slot
insert_slot-found key j t node absent v d k found =
    let s = t.size_index in
    let i = hash key s in
    let more : table_size s + 1 ≡ suc (table_size s) = omega arith in
    rw more (elim (Bool-cases (t.table i).valid) [
      | inl used ↦
          found_from (table_size s) s key i j node t.table absent v d k used
            (free_slot-found (table_size s) s key i j node t.table absent v d k (rw used at found))
      | inr here ↦
          let same : some i ≡ some j = rw here at found in
          at_slot (table_size s) s key i j node t.table v d k (ground (arith, same))
    ])

insert_slot-some :
    (key n : ℕ) (t : Table)
    → n < table_size t.size_index
    → ((t.table
          (walk key t.size_index (step_back key t.size_index (hash key t.size_index)) n)).valid
        && not
            (t.table
              (walk key t.size_index (step_back key t.size_index (hash key t.size_index)) n)).dirty)
      ≡ false
    → (j : ℕ) × (insert_slot key t ≡ some j)
unfolding insert_slot
insert_slot-some key n t low free = elim (Bool-cases (t.table (hash key t.size_index)).valid) [
  | inl used ↦ rw used (
      free_slot-some (table_size t.size_index) t.size_index key (hash key t.size_index) n t.table
        low free)
  | inr here ↦ (hash key t.size_index, rw here refl)
]

-- A key that is not in the table and is put in with a value and a size is then found with them. Some
-- slot on the way of the key, behind its first one, is free.
hashtable_lookup-insert_here :
    (key value dsize n : ℕ) (t : Table)
    → Absent key t.table
    → n < table_size t.size_index
    → ((t.table
          (walk key t.size_index (step_back key t.size_index (hash key t.size_index)) n)).valid
        && not
            (t.table
              (walk key t.size_index (step_back key t.size_index (hash key t.size_index)) n)).dirty)
      ≡ false
    → Returns (λ t1. hashtable_lookup key t1 ≡ some (value, dsize)) (insert_here key value dsize t)
unfolding insert_here hashtable_lookup lookup_slot put_node update
hashtable_lookup-insert_here key value dsize n t absent low free =
    let (j, e) = insert_slot-some key n t low free in
    let node : Node = record {
      valid = true;
      dirty = false;
      key = key;
      dsize = dsize;
      value = value;
    } in
    let hit : (j == j) ≡ true = ground arith in
    rw (e, insert_slot-found key j t node absent refl refl refl e) (rw hit refl)

-- In a table that is not to be rebuilt, a key that is not there and is inserted with a value and a size
-- is then found with them. The table has a free slot on the way of the key, behind its first one.
pub hashtable_lookup-hashtable_insert :
    (fuel key value dsize n : ℕ) (t : Table)
    → is_full t ≡ false
    → Absent key t.table
    → n < table_size t.size_index
    → ((t.table
          (walk key t.size_index (step_back key t.size_index (hash key t.size_index)) n)).valid
        && not
            (t.table
              (walk key t.size_index (step_back key t.size_index (hash key t.size_index)) n)).dirty)
      ≡ false
    → Returns
        (λ t1. hashtable_lookup key t1 ≡ some (value, dsize))
        (hashtable_insert (suc fuel) key value dsize t)
unfolding hashtable_insert Option.bind
hashtable_lookup-hashtable_insert fuel key value dsize n t small absent low free =
    rw small (hashtable_lookup-insert_here key value dsize n t absent low free)
