-- ===== src/Kernel/Queue.antt =====
-- blt/kernel/queue.c and queue.h: queues of blocks over NULL-terminated nodes, on an explicit memory
-- with one function from addresses for each field. NULL is 0, and an access through NULL is an access
-- at address 0. The address that `kmalloc` returns is an argument. A count is unbounded.
pub mod Forward
pub mod Backward
pub mod Tests
use os_open_blt.Base.{
  ℕ, ◌+◌, Bool, true, false, Option, none, some, ◌==◌, if◌then◌else◌, not, update,
}
use os_open_blt.Base.Int.{ℤ, pos, ◌+ℤ◌, ◌-ℤ◌}

pub record Heap : Type 0 where
  pub next : ℕ → ℕ
  pub prev : ℕ → ℕ
  pub block : ℕ → ℕ
  pub dsize : ℕ → ℤ
  pub count : ℕ → ℤ
  pub limit : ℕ → ℤ
  pub head : ℕ → ℕ
  pub tail : ℕ → ℕ
  pub allocated : ℕ → Bool

pub queue_new : ℕ → ℤ → Heap → Heap
unfolding update
queue_new q limit h = record h {
  allocated = update h.allocated q true;
  limit = update h.limit q limit;
  count = update h.count q (pos 0);
  tail = update h.tail q 0;
  head = update h.head q 0;
}

unfoldable queue_del : ℕ → Heap → Heap
unfolding update
queue_del q h = record h { allocated = update h.allocated q false }

-- `kmalloc`, and the fields of the new node that do not link it.
fresh_node : ℕ → ℕ → ℤ → Heap → Heap
unfolding update
fresh_node n block dsize h = record h {
  allocated = update h.allocated n true;
  block = update h.block n block;
  dsize = update h.dsize n dsize;
}

-- The branch that both additions take on an empty queue.
only_node : ℕ → ℕ → Heap → Heap
unfolding update
only_node q n h = record h {
  tail = update h.tail q n;
  head = update h.head q n;
  prev = update h.prev n 0;
  next = update h.next n 0;
}

unfoldable pub count_up : ℕ → Heap → Heap
unfolding update
count_up q h = record h { count = update h.count q (h.count q +ℤ pos 1) }

link_head : ℕ → ℕ → Heap → Heap
unfolding update
link_head q n h = record h {
  next = update h.next n (h.head q);
  prev = update (update h.prev n 0) (h.head q) n;
  head = update h.head q n;
}

pub queue_add_head : ℕ → ℕ → ℕ → ℤ → Heap → Heap
unfolding fresh_node only_node link_head count_up
queue_add_head q n block dsize h =
    let h1 = fresh_node n block dsize h in
    count_up q (if not (h1.head q == 0) then link_head q n h1 else only_node q n h1)

link_tail : ℕ → ℕ → Heap → Heap
unfolding update
link_tail q n h = record h {
  prev = update h.prev n (h.head q);
  next = update (update h.next n 0) (h.tail q) n;
  tail = update h.tail q n;
}

pub queue_add_tail : ℕ → ℕ → ℕ → ℤ → Heap → Heap
unfolding fresh_node only_node link_tail count_up
queue_add_tail q n block dsize h =
    let h1 = fresh_node n block dsize h in
    count_up q (if not (h1.head q == 0) then link_tail q n h1 else only_node q n h1)

-- `q->head = q->tail = NULL`.
no_node : ℕ → Heap → Heap
unfolding update
no_node q h = record h { tail = update h.tail q 0; head = update h.head q 0 }

drop_head : ℕ → ℕ → Heap → Heap
unfolding update
drop_head q n h = record h { prev = update h.prev (h.next n) 0; head = update h.head q (h.next n) }

drop_tail : ℕ → ℕ → Heap → Heap
unfolding update
drop_tail q n h = record h { next = update h.next (h.prev n) 0; tail = update h.tail q (h.prev n) }

unfoldable pub count_down : ℕ → Heap → Heap
unfolding update
count_down q h = record h { count = update h.count q (h.count q -ℤ pos 1) }

-- The block returned, and what a `dsize` that is not NULL receives, `none` if it is left alone.
pub record Taken : Type 0 where
  pub block : ℕ
  pub dsize : Option ℤ

take_out : ℕ → Heap → Taken × Heap
unfolding update
take_out n h = (
  record { block = h.block n; dsize = some (h.dsize n) },
  record h { allocated = update h.allocated n false },
)

pub queue_remove_head : ℕ → Heap → Taken × Heap
unfolding no_node drop_head count_down take_out
queue_remove_head q h =
    let n = h.head q in
    let h1 = count_down q h in
    if not (n == 0)
    then take_out n (if h1.tail q == h1.head q then no_node q h1 else drop_head q n h1)
    else (record { block = 0; dsize = none }, h)

-- The node taken is `q->head` here too.
pub queue_remove_tail : ℕ → Heap → Taken × Heap
unfolding no_node drop_tail count_down take_out
queue_remove_tail q h =
    let n = h.head q in
    let h1 = count_down q h in
    if not (n == 0)
    then take_out n (if h1.tail q == h1.head q then no_node q h1 else drop_tail q n h1)
    else (record { block = 0; dsize = none }, h)

-- The macros of queue.h: `queue_peekTail` reads the head, and `queue_limit` the count.
unfoldable queue_peek_head : ℕ → Heap → ℕ
queue_peek_head q h = if not (h.head q == 0) then h.block (h.head q) else 0

unfoldable queue_peek_tail : ℕ → Heap → ℕ
queue_peek_tail q h = if not (h.head q == 0) then h.block (h.head q) else 0

unfoldable queue_limit : ℕ → Heap → ℤ
queue_limit q h = h.count q
