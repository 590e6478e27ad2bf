-- ===== src/Kernel/NodeList.antt =====
-- blt/kernel/list.c and list.h: circular doubly linked lists over an explicit memory, one function
-- from addresses for each field (a `list_t` shares the fields `next` and `prev` with a `node_t`, so
-- the list's own address serves as the sentinel node). `allocated` says which nodes `kmalloc` gave
-- out. The address that `kmalloc` returns is an argument. The walks of `list_remove` and
-- `list_detach` take fuel; the count of the list and one round more is enough.
pub mod Links
pub mod Ends
pub mod Removal
pub mod Walk
pub mod Tests
use os_open_blt.Base.{
  ℕ, zero, suc, ◌+◌, ◌-◌, ◌%◌, ◌^◌, Bool, true, false, Option, none, some, ◌==◌, if◌then◌else◌,
  update,
}
use os_open_blt.Base.Int.{ℤ, pos, negsuc}

pub record Heap : Type 0 where
  pub next : ℕ → ℕ
  pub prev : ℕ → ℕ
  pub content : ℕ → ℕ
  pub count : ℕ → ℕ
  pub allocated : ℕ → Bool

set_next : ℕ → ℕ → Heap → Heap
unfolding update
set_next a v h = record h { next = update h.next a v }

set_prev : ℕ → ℕ → Heap → Heap
unfolding update
set_prev a v h = record h { prev = update h.prev a v }

set_content : ℕ → ℕ → Heap → Heap
unfolding update
set_content a v h = record h { content = update h.content a v }

set_count : ℕ → ℕ → Heap → Heap
unfolding update
set_count a v h = record h { count = update h.count a v }

-- `kmalloc(node_t)` and `kfree(node_t, node)`, as far as a list sees them.
pub set_allocated : ℕ → Bool → Heap → Heap
unfolding update
set_allocated a v h = record h { allocated = update h.allocated a v }

pub list_init : ℕ → Heap → Heap
unfolding set_next set_prev set_count
list_init l h = set_count l 0 (set_prev l l (set_next l l h))

-- `list->count++` and `list->count--` on a uint32.
unfoldable pub count_up : ℕ → Heap → Heap
unfolding set_count
count_up l h = set_count l ((h.count l + 1) % 2 ^ 32) h

unfoldable pub count_down : ℕ → Heap → Heap
unfolding set_count
count_down l h = set_count l ((h.count l + 2 ^ 32 - 1) % 2 ^ 32) h

pub list_attach_head : ℕ → ℕ → Heap → Heap
unfolding set_next set_prev count_up
list_attach_head l n h =
    let h1 = set_next n (h.next l) h in
    let h2 = set_prev (h1.next n) n h1 in
    let h3 = set_prev n l h2 in let h4 = set_next l n h3 in count_up l h4

pub list_attach_tail : ℕ → ℕ → Heap → Heap
unfolding set_next set_prev count_up
list_attach_tail l n h =
    let h1 = set_prev n (h.prev l) h in
    let h2 = set_next (h1.prev n) n h1 in
    let h3 = set_next n l h2 in let h4 = set_prev l n h3 in count_up l h4

-- `n` is what `kmalloc` returns.
pub list_add_head : ℕ → ℕ → ℕ → Heap → Heap
unfolding set_next set_prev set_content set_allocated count_up
list_add_head l n item h =
    let h0 = set_content n item (set_allocated n true h) in
    let h1 = set_next n (h0.next l) h0 in
    let h2 = set_prev (h1.next n) n h1 in
    let h3 = set_prev n l h2 in let h4 = set_next l n h3 in count_up l h4

pub list_add_tail : ℕ → ℕ → ℕ → Heap → Heap
unfolding set_next set_prev set_content set_allocated count_up
list_add_tail l n item h =
    let h0 = set_content n item (set_allocated n true h) in
    let h1 = set_prev n (h0.prev l) h0 in
    let h2 = set_next (h1.prev n) n h1 in
    let h3 = set_next n l h2 in let h4 = set_prev l n h3 in count_up l h4

-- NULL is 0.
pub list_peek_head : ℕ → Heap → ℕ
list_peek_head l h = if h.next l == l then 0 else h.content (h.next l)

pub list_peek_tail : ℕ → Heap → ℕ
list_peek_tail l h = if h.prev l == l then 0 else h.content (h.prev l)

-- The unlinking that the removals from an end share: next of the previous node first.
pub unlink : ℕ → Heap → Heap
unfolding set_next set_prev
unlink n h = let h1 = set_next (h.prev n) (h.next n) h in set_prev (h1.next n) (h1.prev n) h1

-- The order of `list_remove` and `list_detach`: prev of the next node first.
pub unlink_back : ℕ → Heap → Heap
unfolding set_next set_prev
unlink_back n h = let h1 = set_prev (h.next n) (h.prev n) h in set_next (h1.prev n) (h1.next n) h1

pub list_detach_head : ℕ → Heap → ℕ × Heap
unfolding unlink count_down
list_detach_head l h =
    let n = h.next l in
    if n == l then (0, h) else (let h' = count_down l (unlink n h) in (h'.content n, h'))

pub list_detach_tail : ℕ → Heap → ℕ × Heap
unfolding unlink count_down
list_detach_tail l h =
    let n = h.prev l in
    if n == l then (0, h) else (let h' = count_down l (unlink n h) in (h'.content n, h'))

pub list_remove_head : ℕ → Heap → ℕ × Heap
unfolding unlink count_down set_allocated
list_remove_head l h =
    let n = h.next l in
    if n == l then (0, h) else (h.content n, count_down l (set_allocated n false (unlink n h)))

pub list_remove_tail : ℕ → Heap → ℕ × Heap
unfolding unlink count_down set_allocated
list_remove_tail l h =
    let n = h.prev l in
    if n == l then (0, h) else (h.content n, count_down l (set_allocated n false (unlink n h)))

-- `free` says whether the node found is given back to `kfree`; -1 is `negsuc 0`.
pub detach_from : Bool → ℕ → ℕ → ℕ → ℕ → Heap → Option (ℤ × Heap)
unfolding unlink_back count_down set_allocated
detach_from free zero l item n h = none
detach_from free (suc fuel) l item n h =
    let rest = detach_from free fuel l item (h.next n) h in
    if n == l
    then some (negsuc 0, h)
    else if h.content n == item
    then (let h1 = unlink_back n h in
        some (pos 0, count_down l (if free then set_allocated n false h1 else h1)))
    else rest

pub list_remove : ℕ → ℕ → Heap → Option (ℤ × Heap)
unfolding detach_from
list_remove l item h = detach_from true (h.count l + 1) l item (h.next l) h

pub list_detach : ℕ → ℕ → Heap → Option (ℤ × Heap)
unfolding detach_from
list_detach l item h = detach_from false (h.count l + 1) l item (h.next l) h
