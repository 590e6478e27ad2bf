-- ===== src/Libblt/Hash/Tests.antt =====
-- The theorem on blt/lib/libblt/hash.c at a concrete table.
use os_open_blt.Base.{◌≡◌, refl, some, Returns, update, arith}
use os_open_blt.Libblt.Hash.{
  hashtable_new, hashtable_insert, hashtable_lookup, table_size, hash, rehash, step_back, put_node,
  is_full,
}
use os_open_blt.Libblt.Hash.RoundTrip.{hashtable_lookup-hashtable_insert}

-- Keys 3 and 10 begin their walks at the same slot.
hashtable_lookup-hashtable_insert_example :
    Returns
      (λ t1. hashtable_lookup 10 t1 ≡ some (77, 4))
      (hashtable_insert 1 10 77 4 (put_node 3 66 4 (hashtable_new 1 2) 3))
unfolding put_node hashtable_new table_size hash step_back rehash is_full update
hashtable_lookup-hashtable_insert_example =
    hashtable_lookup-hashtable_insert 0 10 77 4 0 (put_node 3 66 4 (hashtable_new 1 2) 3) refl
      (λ j v d. ground (arith, v)) (omega arith) refl
