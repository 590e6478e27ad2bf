-- ===== src/Libblt/Hash.antt =====
-- blt/lib/libblt/hash.c: a hash table with open addressing. A key is the `unsigned` value of the `int`,
-- and the load a fraction in place of a `float`. The walk over the slots is periodic with at most as many
-- steps as slots, so a walk that runs out of fuel, `none`, is one without end.
pub mod RoundTrip
pub mod Tests
use mathlib.Core.Option
use os_open_blt.Base.{
  ℕ, zero, suc, ◌+◌, ◌-◌, ◌*◌, ◌%◌, Bool, true, false, not, ◌&&◌, Option, none, some, List, [], ◌∷◌,
  ◌==◌, ltb, if◌then◌else◌, get_or, update,
}

-- `hashnode_t`; `value` is its `data`.
pub record Node : Type 0 where
  pub valid : Bool
  pub dirty : Bool
  pub key : ℕ
  pub dsize : ℕ
  pub value : ℕ

-- `hashtable_t`; `max_load` is `load / load_of`.
pub record Table : Type 0 where
  pub table : ℕ → Node
  pub size_index : ℕ
  pub used : ℕ
  pub dirty_count : ℕ
  pub load : ℕ
  pub load_of : ℕ

abbrev table_sizes : List ℕ
table_sizes =
    7 ∷ 19 ∷ 43 ∷ 103 ∷ 229 ∷ 463 ∷ 1021 ∷ 2083 ∷ 4219 ∷ 8539 ∷ 17191 ∷ 34471 ∷ 69031 ∷ 138079
    ∷ 276373 ∷ 552751 ∷ 1105549 ∷ 2211259 ∷ 4422619 ∷ 8845453 ∷ 17691043 ∷ 35382091 ∷ 70764259
    ∷ 141528559 ∷ 283057213 ∷ 566115259 ∷ []

pub table_size : ℕ → ℕ
table_size i = get_or table_sizes i 0

pub hash : ℕ → ℕ → ℕ
hash key size = key % table_size size

pub rehash : ℕ → ℕ → ℕ
rehash key size = 1 + key % (table_size size - 2)

-- One step of a walk: `i -= c; if (i < 0) i += table_size`.
pub step_back : ℕ → ℕ → ℕ → ℕ
step_back key size i = let c = rehash key size in if ltb i c then i + table_size size - c else i - c

abbrev empty_node : Node
empty_node = record { valid = false; dirty = false; key = 0; dsize = 0; value = 0 }

pub hashtable_new : ℕ → ℕ → Table
hashtable_new load load_of = record {
  table = λ i. empty_node;
  size_index = 0;
  used = 0;
  dirty_count = 0;
  load = load;
  load_of = load_of;
}

-- The walk of `hashtable_insert` from slot `i` on.
pub free_slot : ℕ → (ℕ → Node) → ℕ → ℕ → ℕ → Option ℕ
free_slot zero table size key i = none
free_slot (suc fuel) table size key i =
    let j = step_back key size i in
    let rest = free_slot fuel table size key j in
    if (table j).valid && not (table j).dirty then rest else some j

pub insert_slot : ℕ → Table → Option ℕ
insert_slot key t =
    let s = t.size_index in
    let i = hash key s in
    if (t.table i).valid then free_slot (table_size s) t.table s key i else some i

pub put_node : ℕ → ℕ → ℕ → Table → ℕ → Table
unfolding update
put_node key value dsize t i = record t {
  table =
      update t.table i
        (record { valid = true; dirty = false; key = key; dsize = dsize; value = value });
  used = if (t.table i).dirty then t.used else t.used + 1;
}

-- What `hashtable_insert` does after it has rebuilt the table.
pub insert_here : ℕ → ℕ → ℕ → Table → Option Table
insert_here key value dsize t = Option.map (put_node key value dsize t) (insert_slot key t)

-- The loop of `hashtable_rebuild` over the slots of the old table, from slot `i` on, with `insert` for
-- `hashtable_insert`.
unfoldable insert_old :
    (ℕ → ℕ → ℕ → Table → Option Table) → (ℕ → Node) → ℕ → ℕ → Table → Option Table
insert_old insert old zero i t = some t
insert_old insert old (suc left) i t =
    let node = old i in
    Option.bind
      (if node.valid && not node.dirty then insert node.key node.value node.dsize t else some t)
      (insert_old insert old left (i + 1))

unfoldable hashtable_rebuild : (ℕ → ℕ → ℕ → Table → Option Table) → (ℕ → ℕ) → Table → Option Table
hashtable_rebuild insert dir t =
    insert_old insert t.table (table_size t.size_index) 0 (record t {
      table = λ i. empty_node;
      size_index = dir t.size_index;
      used = 0;
      dirty_count = 0;
    })

pub is_full : Table → Bool
is_full t = ltb (t.load * table_size t.size_index) (t.used * t.load_of)

-- `fuel` bounds the rebuilding within rebuilding.
pub hashtable_insert : ℕ → ℕ → ℕ → ℕ → Table → Option Table
hashtable_insert zero key value dsize t = none
hashtable_insert (suc fuel) key value dsize t =
    Option.bind
      (elim (is_full t) [
        | true ↦ hashtable_rebuild (hashtable_insert fuel) (λ i. i + 1) t
        | false ↦ some t
      ])
      (insert_here key value dsize)

-- The walk of `hashtable_lookup` and `hashtable_remove`: the slot of the key, if there is one.
pub find_slot : ℕ → (ℕ → Node) → ℕ → ℕ → ℕ → Option (Option ℕ)
find_slot zero table size key i = none
find_slot (suc fuel) table size key i =
    let rest = find_slot fuel table size key (step_back key size i) in
    if not (table i).valid
    then some none
    else if (table i).key == key && not (table i).dirty
    then some (some i)
    else rest

pub lookup_slot : ℕ → Table → Option (Option ℕ)
lookup_slot key t =
    find_slot (table_size t.size_index + 1) t.table t.size_index key (hash key t.size_index)

-- The data and `*dsize`; NULL and 0 if the key is not there.
pub hashtable_lookup : ℕ → Table → Option (ℕ × ℕ)
hashtable_lookup key t =
    Option.map
      (λ slot. elim slot [ none ↦ (0, 0) | some i ↦ ((t.table i).value, (t.table i).dsize) ])
      (lookup_slot key t)

-- `hashtable_remove` from slot `i`.
unfoldable remove_slot : ℕ → ℕ → Table → Option (ℕ × ℕ × Table)
unfolding update
remove_slot fuel i t =
    let node = t.table i in
    let t1 = record t {
      table = update t.table i (record node { dirty = true });
      dirty_count = t.dirty_count + 1;
    } in
    let shrink =
      ltb ((t.load_of - t.load) * table_size t.size_index) (t1.dirty_count * t.load_of)
      && not (t.size_index == 0) in
    Option.map (λ t2. (node.value, node.dsize, t2))
      (elim shrink [
        | true ↦ hashtable_rebuild (hashtable_insert fuel) (λ s. s - 1) t1
        | false ↦ some t1
      ])

unfoldable hashtable_remove : ℕ → ℕ → Table → Option (ℕ × ℕ × Table)
hashtable_remove fuel key t =
    Option.bind (lookup_slot key t)
      (λ slot. elim slot [ none ↦ some (0, 0, t) | some i ↦ remove_slot fuel i t ])
