-- ===== src/Kernel/Port.antt =====
-- blt/kernel/port.c: message ports. The messages between `first` and `last` are a list. Where a payload
-- is stored (kernel blocks, or pages of `msg_pool`) is left out: a message holds its bytes, and its size
-- is their number. A call that blocks goes on by its `_resumed` function when its task runs again.
pub mod Bounds
pub mod Fifo
pub mod Slaves
pub mod Tests
use mathlib.Core.Option
use os_open_blt.Base.{
  ℕ, ◌+◌, ◌-◌, Bool, true, false, ◌&&◌, ◌||◌, not, Option, none, some, List, [], ◌∷◌, ◌++◌, ◌==◌,
  ltb, leb, if◌then◌else◌, take, length, min,
}
use os_open_blt.Base.Int.{ℤ, pos, negsuc, ◌+ℤ◌, ◌-ℤ◌, pos_part, neg_part}
use os_open_blt.Kernel.State.{Kernel, Port, Message, rsrc_port, rsrc_queue, set_port}
use os_open_blt.Kernel.Resource.{
  err_resource, rsrc_find, rsrc_bind, rsrc_set_name, rsrc_release, rsrc_dequeue, task_wake,
}
use os_open_blt.Kernel.Sched.{Reply, done, blocked, wait_on, wait_status}

abbrev pub err_permission : ℤ
err_permission = negsuc 0

abbrev pub err_memory : ℤ
err_memory = negsuc 2

abbrev pub err_sendport : ℤ
err_sendport = negsuc 3

abbrev pub err_recvport : ℤ
err_recvport = negsuc 4

abbrev pub err_would_block : ℤ
err_would_block = negsuc 5

abbrev pub max_msgcount : ℕ
max_msgcount = 16

-- `p` and `q` are what the two `kmalloc` return; the name of the port is given to its send queue too.
unfoldable port_create : ℕ → ℕ → ℕ → Option (List ℕ) → Kernel → Option (ℕ × Kernel)
port_create p q restrict name k =
    let owner = (k.rsrc k.current).owner in
    let k1 =
      set_port p
        (record {
          msgcount = 0;
          slaved = 0;
          messages = [];
          refcount = pos 1;
          nowait = 0;
          restrict = restrict;
          sendqueue = q;
        })
        k in
    Option.bind (rsrc_bind p rsrc_port owner k1) (λ k2.
      Option.map
        (λ k3. let k4 = rsrc_set_name q name (rsrc_set_name p name k3) in ((k4.rsrc p).id, k4))
        (rsrc_bind q rsrc_queue owner k2))

abbrev pub is_one : ℤ → Bool
is_one n = (pos_part n == 1) && (neg_part n == 0)

pub port_destroy : ℕ → Kernel → Option (ℤ × Kernel)
port_destroy id k =
    let p = rsrc_find 3 id k in
    if p == 0
    then some (err_resource, k)
    else if is_one (k.port p).refcount
    then Option.bind (rsrc_release p k)
        (λ k1. Option.map (λ k2. (pos 0, k2)) (rsrc_release (k.port p).sendqueue k1))
    else some (err_resource, k)

pub add_ref : ℕ → ℤ → Kernel → Kernel
unfolding set_port
add_ref p n k = set_port p (record (k.port p) { refcount = (k.port p).refcount +ℤ n }) k

-- The end of the option SLAVE: the old master loses a slave, if there is one, and `master` is set.
pub change_master : ℕ → ℕ → Kernel → Option (ℤ × Kernel)
unfolding add_ref set_port
change_master p arg k =
    let old = rsrc_find 3 (k.port p).slaved k in
    let enslaved = λ (k1 : Kernel). set_port p (record (k1.port p) { slaved = arg }) k1 in
    if (k.port p).slaved == 0
    then some (pos 0, enslaved k)
    else if old == 0
    then none
    else some (pos 0, enslaved (add_ref old (negsuc 0) k))

pub port_slave : ℕ → ℕ → Kernel → Option (ℤ × Kernel)
port_slave p arg k =
    let master = rsrc_find 3 arg k in
    if arg == 0
    then change_master p arg k
    else if master == 0
    then some (err_resource, k)
    else if not ((k.rsrc master).owner == (k.rsrc k.current).owner)
    then some (err_permission, k)
    else change_master p arg (add_ref master (pos 1) k)

-- The options are 1 NOWAIT, 2 SETRESTRICT and 4 SLAVE.
pub port_option : ℕ → ℕ → ℕ → Kernel → Option (ℤ × Kernel)
port_option id opt arg k =
    let p = rsrc_find 3 id k in
    if p == 0
    then some (err_resource, k)
    else if not ((k.rsrc p).owner == (k.rsrc k.current).owner)
    then some (err_permission, k)
    else if opt == 2
    then some (pos 0, set_port p (record (k.port p) { restrict = arg }) k)
    else if opt == 4
    then port_slave p arg k
    else if opt == 1
    then some (pos 0, set_port p (record (k.port p) { nowait = arg }) k)
    else some (err_permission, k)

-- What a caller of `port_send` hands over; `address` is that of the message in its memory.
pub record Sending : Type 0 where
  pub src : ℕ
  pub dst : ℕ
  pub address : ℕ
  pub payload : List ℕ
  pub code : ℕ

-- The task that has waited longest on `r` becomes ready, with ERR_NONE.
pub wake_first : ℕ → Kernel → Kernel
wake_first r k = let (t, k1) = rsrc_dequeue r k in if t == 0 then k else task_wake t (pos 0) k1

-- A receiver waits on the port, or on its master where it has one.
pub wake_receiver : ℕ → Kernel → Kernel
unfolding wake_first
wake_receiver p k =
    let master = rsrc_find 3 (k.port p).slaved k in
    if (k.port p).slaved == 0
    then wake_first p k
    else if master == 0
    then k
    else wake_first master k

pub append_message : ℕ → Message → Kernel → Kernel
unfolding set_port
append_message p m k =
    let port = k.port p in
    set_port p (record port { messages = port.messages ++ m ∷ []; msgcount = port.msgcount + 1 }) k

abbrev pub message_of : Sending → Message
message_of s = record { code = s.code; from_port = s.src; to_port = s.dst; payload = s.payload }

-- The message for `dst` goes to the port at `p`.
pub deliver : ℕ → Sending → Kernel → Reply × Kernel
deliver p s k =
    if ltb 0x400000 s.address || ltb 4096 (length s.payload)
    then (done err_memory, k)
    else (done (pos (length s.payload)), wake_receiver p (append_message p (message_of s) k))

-- One round of the waiting loop of `port_send`, and what follows it.
pub send_try : ℕ → Sending → Kernel → Option (Reply × Kernel)
send_try p s k =
    if leb max_msgcount (k.port p).msgcount
    then (if not ((k.port p).nowait == 0)
        then some (done err_would_block, k)
        else Option.map (λ k'. (blocked, k')) (wait_on (k.port p).sendqueue k))
    else some (deliver p s k)

-- The port that a message for `dst` goes to: the master of a slave, which must be no slave itself.
pub data Target : Type 0 where
  refused : ℤ → Target
  target : ℕ → Target

pub send_target : Sending → Kernel → Target
send_target s k =
    let p = rsrc_find 3 s.dst k in
    let master = rsrc_find 3 (k.port p).slaved k in
    if rsrc_find 3 s.src k == 0
    then refused err_sendport
    else if p == 0
    then refused err_recvport
    else if (k.port p).slaved == 0
    then target p
    else if master == 0
    then refused err_resource
    else if (k.port master).slaved == 0
    then target master
    else refused err_resource

pub port_send : Sending → Kernel → Option (Reply × Kernel)
port_send s k = elim (send_target s k) [ refused e ↦ some (done e, k) | target p ↦ send_try p s k ]

-- The sender blocked on the port at `p` is current again.
unfoldable port_send_resumed : ℕ → Sending → Kernel → Option (Reply × Kernel)
port_send_resumed p s k =
    let status = wait_status k in
    if (pos_part status == 0) && (neg_part status == 0)
    then send_try p s k
    else some (done status, k)

-- What `port_recv` has come to; a message received gives its bytes, its source, its code and the result.
pub data RecvReply : Type 0 where
  failed : ℤ → RecvReply
  waiting : RecvReply
  received : List ℕ → ℕ → ℕ → ℕ → RecvReply

-- The message leaves the port, and a sender that waits for room is woken.
pub take_message : ℕ → List Message → Kernel → Kernel
unfolding set_port
take_message p rest k =
    let k1 = set_port p (record (k.port p) { messages = rest }) k in
    let sendqueue = (k1.port p).sendqueue in
    let k2 =
      if not (length (k1.rsrc sendqueue).queue == 0) && leb (k1.port p).msgcount max_msgcount
      then wake_first sendqueue k1
      else k1 in
    set_port p (record (k2.port p) { msgcount = (k2.port p).msgcount - 1 }) k2

-- `none` is a read through a NULL `first`.
pub receive : ℕ → ℕ → Kernel → Option (RecvReply × Kernel)
receive p size k = elim (k.port p).messages [
  | [] ↦ none
  | m ∷ rest ↦ some (
    received (take size m.payload) m.from_port m.code (min size (length m.payload)),
    take_message p rest k,
  )
]

pub recv_try : ℕ → ℕ → Kernel → Option (RecvReply × Kernel)
recv_try p size k =
    if (k.port p).msgcount == 0
    then (if not ((k.port p).nowait == 0)
        then some (failed err_would_block, k)
        else Option.map (λ k'. (waiting, k')) (wait_on p k))
    else receive p size k

-- `for_kernel` says that the current task belongs to the kernel's team.
pub port_recv : ℕ → Bool → ℕ → ℕ → Kernel → Option (RecvReply × Kernel)
port_recv dst for_kernel address size k =
    let p = rsrc_find 3 dst k in
    if p == 0
    then some (failed err_recvport, k)
    else if not for_kernel && ltb 0x400000 address
    then some (failed err_memory, k)
    else recv_try p size k

unfoldable port_recv_resumed : ℕ → ℕ → Kernel → Option (RecvReply × Kernel)
port_recv_resumed p size k =
    let status = wait_status k in
    if (pos_part status == 0) && (neg_part status == 0)
    then recv_try p size k
    else some (failed status, k)
