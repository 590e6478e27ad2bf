-- ===== src/Kernel/Port/Bounds.antt =====
-- A port of blt/kernel/port.c never holds more than sixteen messages, and counts them right.
use mathlib.Core.Option
use os_open_blt.Base.{
  ℕ, ◌+◌, ◌-◌, ◌≤◌, ◌<◌, ◌≡◌, ◌≢◌, refl, Returns, Returns-map, List, [], ◌∷◌, ◌++◌, arith, ◌==◌,
  ltb, leb, if◌then◌else◌, length, length-append, Bool-cases, inl, inr, ap, ◌∙◌, some, Bool, ◌||◌,
  ◌&&◌, not,
}
use os_open_blt.Kernel.State.{Kernel, Port, Message, set_port}
use os_open_blt.Kernel.Resource.{rsrc_find, rsrc_dequeue, task_wake}
use os_open_blt.Kernel.Sched.{Reply, done, blocked, wait_on}
use os_open_blt.Kernel.Sched.Switch.{Live, wait_on-Waiting}
use os_open_blt.Kernel.Port.{
  Sending, wake_first, wake_receiver, append_message, deliver, send_try, port_send, send_target,
  message_of, target, refused, Target, waiting, take_message, receive, recv_try, port_recv,
}

pub record PortOk (k : Kernel) (a : ℕ) : Type 0 where
  pub counted : (k.port a).msgcount ≡ length (k.port a).messages
  pub bounded : (k.port a).msgcount ≤ 16

same-PortOk : (k k' : Kernel) (a : ℕ) → k'.port a ≡ k.port a → PortOk k a → PortOk k' a
same-PortOk k k' a e ok = record { counted = rw e ok.counted; bounded = rw e ok.bounded }

-- Waking moves a task from one queue to another, and touches no port.
pub port-wake_first : (r : ℕ) (k : Kernel) → (wake_first r k).port ≡ k.port
unfolding wake_first rsrc_dequeue task_wake
port-wake_first r k = ground arith

pub port-wake_receiver : (p : ℕ) (k : Kernel) → (wake_receiver p k).port ≡ k.port
unfolding wake_receiver
port-wake_receiver p k =
    ground (arith, port-wake_first p k, port-wake_first (rsrc_find 3 (k.port p).slaved k) k)

abbrev pub with_message : Port → Message → Port
with_message p m = record p { messages = p.messages ++ m ∷ []; msgcount = p.msgcount + 1 }

pub port-append_message :
    (p : ℕ) (m : Message) (k : Kernel) (a : ℕ)
    → (append_message p m k).port a ≡ (if a == p then with_message (k.port p) m else k.port a)
unfolding append_message
port-append_message p m k a = ground arith

abbrev pub without_message : Port → List Message → Port
without_message p rest = record p { messages = rest; msgcount = p.msgcount - 1 }

-- A message that is taken leaves the others in order, and no other port changes.
pub port-take_message :
    (p : ℕ) (rest : List Message) (k : Kernel) (a : ℕ)
    → (take_message p rest k).port a
      ≡ (if a == p then without_message (k.port p) rest else k.port a)
unfolding take_message
port-take_message p rest k a =
    let k1 = set_port p (record (k.port p) { messages = rest }) k in
    let quiet = λ (x : ℕ). ap (λ (f : ℕ → Port). f x) (port-wake_first (k1.port p).sendqueue k1) in
    ground (arith, quiet a, quiet p)

append_message-PortOk :
    (p : ℕ) (m : Message) (k : Kernel) (a : ℕ)
    → (k.port p).msgcount < 16
    → PortOk k a
    → PortOk (append_message p m k) a
append_message-PortOk p m k a room ok =
    let now = port-append_message p m k a in
    let longer = length-append (k.port p).messages (m ∷ []) in
    let counted = ok.counted in
    let bounded = ok.bounded in record { counted = ground arith; bounded = ground arith }

module _ (k : Kernel) (live : Live k) (a : ℕ) (ok : PortOk k a) where
  waited-PortOk :
      {A : Type 0} (r : ℕ) (reply : A)
      → r ≢ k.run_queue
      → Returns (λ (x : A × Kernel). PortOk x.1 a) (Option.map (λ k'. (reply, k')) (wait_on r k))
  waited-PortOk {A} r reply ne =
      Returns-map (wait_on r k) (λ (x : A × Kernel). PortOk x.1 a) (λ k'. (reply, k'))
        (λ k' w. same-PortOk k k' a (ap (λ f. f a) w.port) ok) (wait_on-Waiting k live r ne)

  deliver-PortOk : (p : ℕ) (s : Sending) → (k.port p).msgcount < 16 → PortOk (deliver p s k).1 a
  unfolding deliver
  deliver-PortOk p s room =
      elim (Bool-cases (ltb 0x400000 s.address || ltb 4096 (length s.payload))) [
        | inl bad ↦ rw bad ok
        | inr good ↦
            let k1 = append_message p (message_of s) k in
            rw good (
              same-PortOk k1 (wake_receiver p k1) a
                (ap (λ (f : ℕ → Port). f a) (port-wake_receiver p k1))
                (append_message-PortOk p (message_of s) k a room ok))
      ]

  send_try-PortOk :
      (p : ℕ) (s : Sending)
      → (k.port p).sendqueue ≢ k.run_queue
      → Returns (λ r. PortOk r.1 a) (send_try p s k)
  unfolding send_try
  send_try-PortOk p s ne = elim (Bool-cases (leb 16 (k.port p).msgcount)) [
    | inl full ↦ elim (Bool-cases ((k.port p).nowait == 0)) [
      | inl waits ↦ rw (full, waits) (waited-PortOk (k.port p).sendqueue blocked ne)
      | inr hurried ↦ rw (full, hurried) ok
    ]
    | inr room ↦ rw room (deliver-PortOk p s (ground arith))
  ]

  -- `port_send` on a kernel in which a task is alive, the idle task is not dead and no task of the run queue
  -- is NULL ends, and keeps the count of any port right and at most sixteen, whichever port it is for and
  -- whether it delivers, refuses or blocks. No send queue is the run queue.
  pub port_send-PortOk :
      (s : Sending)
      → ((p : ℕ) → (k.port p).sendqueue ≢ k.run_queue)
      → Returns (λ r. PortOk r.1 a) (port_send s k)
  unfolding port_send
  port_send-PortOk s ne = sent (send_target s k)
    where
      sent :
          (t : Target)
          → Returns
              (λ (r : Reply × Kernel). PortOk r.1 a)
              (elim t [ refused e ↦ some (done e, k) | target p ↦ send_try p s k ])
      sent (refused e) = ok
      sent (target p) = send_try-PortOk p s (ne p)

module _ (k : Kernel) (a : ℕ) (ok : PortOk k a) where
  receive-PortOk :
      (p size : ℕ) (m : Message) (rest : List Message)
      → (k.port p).messages ≡ m ∷ rest
      → Returns (λ r. PortOk r.1 a) (receive p size k)
  unfolding receive
  receive-PortOk p size m rest e =
      let now = port-take_message p rest k a in
      let counted = ok.counted in
      let bounded = ok.bounded in
      rw (e, receive)
        (record { counted = ground (arith, ap length e); bounded = ground (arith, ap length e) })

module _ (k : Kernel) (live : Live k) (all : (b : ℕ) → PortOk k b) (a : ℕ) where
  some_message :
      (p size : ℕ) (q : List Message)
      → (k.port p).messages ≡ q
      → (k.port p).msgcount ≢ 0
      → Returns (λ r. PortOk r.1 a) (receive p size k)
  some_message p size [] e ne = absurd (ne ((all p).counted ∙ ap length e))
  some_message p size (m ∷ rest) e ne = receive-PortOk k a (all a) p size m rest e

  recv_try-PortOk : (p size : ℕ) → p ≢ k.run_queue → Returns (λ r. PortOk r.1 a) (recv_try p size k)
  unfolding recv_try
  recv_try-PortOk p size ne = elim (Bool-cases ((k.port p).msgcount == 0)) [
    | inl empty ↦ elim (Bool-cases ((k.port p).nowait == 0)) [
      | inl waits ↦ rw (empty, waits) (waited-PortOk k live a (all a) p waiting ne)
      | inr hurried ↦ rw (empty, hurried) (all a)
    ]
    | inr ready ↦ rw ready (some_message p size (k.port p).messages refl (ground arith))
  ]

  -- `port_recv` on a kernel whose ports all count their messages right, and hold sixteen at most, ends
  -- (it never reads through a NULL `first`), and leaves every port so. There is a live task, the idle task
  -- is not dead, no task of the run queue is NULL, and the wait queue of the port is not the run queue.
  pub port_recv-PortOk :
      (dst : ℕ) (for_kernel : Bool) (address size : ℕ)
      → rsrc_find 3 dst k ≢ k.run_queue
      → Returns (λ r. PortOk r.1 a) (port_recv dst for_kernel address size k)
  unfolding port_recv
  port_recv-PortOk dst for_kernel address size ne = elim (Bool-cases (rsrc_find 3 dst k == 0)) [
    | inl missing ↦ rw missing (all a)
    | inr found ↦ elim (Bool-cases (not for_kernel && ltb 0x400000 address)) [
      | inl bad ↦ rw (found, bad) (all a)
      | inr good ↦ rw (found, good) (recv_try-PortOk (rsrc_find 3 dst k) size ne)
    ]
  ]
