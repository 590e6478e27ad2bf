-- ===== src/Kernel/Port/Fifo.antt =====
-- Ports of blt/kernel/port.c are first in, first out, and a message comes out as it went in.
use mathlib.Core.Path.{ap₂}
use os_open_blt.Base.{
  take_all, ℕ, ◌≤◌, ◌<◌, ◌≡◌, ◌≢◌, refl, false, Returns, List, [], ◌∷◌, arith, ◌==◌, ltb, leb,
  length, take, min, ap, Bool, ◌||◌, ◌&&◌, not, length-append, Returns-mono, ◌∙◌,
}
use os_open_blt.Base.Int.{pos}
use os_open_blt.Kernel.State.{Kernel, Port, Message}
use os_open_blt.Kernel.Resource.{rsrc_find, rsrc_dequeue, task_wake}
use os_open_blt.Kernel.Sched.{Reply, done}
use os_open_blt.Kernel.Port.{
  Sending, message_of, wake_first, wake_receiver, append_message, deliver, send_try, port_send,
  send_target, target, RecvReply, received, receive, recv_try, port_recv,
}
use os_open_blt.Kernel.Port.Bounds.{
  PortOk, port-wake_receiver, port-append_message, with_message, without_message, port-take_message,
}

-- The port `dst` is at `p`, is no slave, and has room; the sender has a port; the message is allowed.
pub record CanSend (k : Kernel) (s : Sending) (p : ℕ) : Type 0 where
  pub sender : rsrc_find 3 s.src k ≢ 0
  pub found : rsrc_find 3 s.dst k ≡ p
  pub real : p ≢ 0
  pub no_slave : (k.port p).slaved ≡ 0
  pub room : (k.port p).msgcount < 16
  pub low : s.address ≤ 0x400000
  pub short : length s.payload ≤ 4096

-- The message stands last at `p`, no other port has changed, and the result is the size.
pub record Delivered (k : Kernel) (s : Sending) (p : ℕ) (r : Reply × Kernel) : Type 0 where
  pub reply : r.0 ≡ done (pos (length s.payload))
  pub put : r.1.port p ≡ with_message (k.port p) (message_of s)
  pub other_port : (a : ℕ) → a ≢ p → r.1.port a ≡ k.port a
  pub finds : (t i : ℕ) → rsrc_find t i r.1 ≡ rsrc_find t i k

find-wake_first : (r : ℕ) (k : Kernel) (t i : ℕ) → rsrc_find t i (wake_first r k) ≡ rsrc_find t i k
unfolding wake_first rsrc_dequeue task_wake rsrc_find
find-wake_first r k t i = ground arith

find-wake_receiver :
    (p : ℕ) (k : Kernel) (t i : ℕ) → rsrc_find t i (wake_receiver p k) ≡ rsrc_find t i k
unfolding wake_receiver
find-wake_receiver p k t i =
    ground (arith, find-wake_first p k t i, find-wake_first (rsrc_find 3 (k.port p).slaved k) k t i)

find-append_message :
    (p : ℕ) (m : Message) (k : Kernel) (t i : ℕ)
    → rsrc_find t i (append_message p m k) ≡ rsrc_find t i k
unfolding append_message rsrc_find
find-append_message p m k t i = refl

put_message-PortOk :
    (k : Kernel) (s : Sending) (p : ℕ) (r : Reply × Kernel)
    → Delivered k s p r
    → (k.port p).msgcount < 16
    → PortOk k p
    → PortOk r.1 p
put_message-PortOk k s p r d room ok =
    let put = d.put in
    let longer = length-append (k.port p).messages (message_of s ∷ []) in
    record { counted = ground (arith, ok.counted); bounded = ground arith }

module _ (k : Kernel) (s : Sending) (p : ℕ) (can : CanSend k s p) where
  deliver-Delivered : Delivered k s p (deliver p s k)
  unfolding deliver
  deliver-Delivered =
      let low = can.low in
      let short = can.short in
      let fits : (ltb 0x400000 s.address || ltb 4096 (length s.payload)) ≡ false = ground arith in
      let k1 = append_message p (message_of s) k in
      let quiet = λ (a : ℕ). ap (λ (f : ℕ → Port). f a) (port-wake_receiver p k1) in
      rw fits (record {
        reply = refl;
        put = ground (arith, quiet p, port-append_message p (message_of s) k p);
        other_port = λ a ne. ground (arith, quiet a, port-append_message p (message_of s) k a);
        finds = λ t i. find-wake_receiver p k1 t i ∙ find-append_message p (message_of s) k t i;
      })

  target_lem : send_target s k ≡ target p
  unfolding send_target
  target_lem =
      let sender = can.sender in
      let found = can.found in let real = can.real in let no_slave = can.no_slave in ground arith

  -- `port_send` to a port with room, of an allowed message, does not block: the message stands last there,
  -- with its source, code and bytes, no other port changes, and the result is the size.
  pub port_send-Delivered : Returns (Delivered k s p) (port_send s k)
  unfolding port_send send_try
  port_send-Delivered =
      let room = can.room in
      let free : leb 16 (k.port p).msgcount ≡ false = ground arith in
      rw (target_lem, port_send) (rw free deliver-Delivered)

-- The first message is handed out as far as `size` allows; the others stay in order, and no other port
-- changes.
pub record Received (k : Kernel) (p size : ℕ) (m : Message) (rest : List Message)
    (r : RecvReply × Kernel) : Type 0 where
  pub reply : r.0 ≡ received (take size m.payload) m.from_port m.code (min size (length m.payload))
  pub left : r.1.port p ≡ without_message (k.port p) rest
  pub other_port : (a : ℕ) → a ≢ p → r.1.port a ≡ k.port a

module _ (k : Kernel) (dst p size : ℕ) (m : Message) (rest : List Message)
    (found : rsrc_find 3 dst k ≡ p) (real : p ≢ 0) (ok : PortOk k p)
    (queued : (k.port p).messages ≡ m ∷ rest) where
  -- `port_recv` on a port that holds messages hands out the first one, up to `size` bytes of it, with its
  -- source and code; the result is the smaller of the two sizes. The caller's buffer is allowed.
  pub port_recv-Received :
      (for_kernel : Bool) (address : ℕ)
      → address ≤ 0x400000
      → Returns (Received k p size m rest) (port_recv dst for_kernel address size k)
  unfolding port_recv recv_try receive
  port_recv-Received for_kernel address low =
      let there : (p == 0) ≡ false = ground arith in
      let fits : (not for_kernel && ltb 0x400000 address) ≡ false = ground arith in
      let some_message : ((k.port p).msgcount == 0) ≡ false =
        ground (arith, ok.counted, ap length queued) in
      rw (found, there, fits, some_message)
        (rw (queued, receive)
          (record {
            reply = refl;
            left = ground (arith, port-take_message p rest k p);
            other_port = λ a ne. ground (arith, port-take_message p rest k a);
          }))

-- A message sent to an empty port is the one received next, whole if the receiver has room for it.
pub port_recv-port_send :
    (k : Kernel) (s : Sending) (p size : ℕ) (for_kernel : Bool) (address : ℕ)
    → CanSend k s p
    → (k.port p).messages ≡ []
    → PortOk k p
    → length s.payload ≤ size
    → address ≤ 0x400000
    → Returns
        (λ r.
          Returns
            (λ r'. r'.0 ≡ received s.payload s.src s.code (length s.payload))
            (port_recv s.dst for_kernel address size r.1))
        (port_send s k)
port_recv-port_send k s p size for_kernel address can empty ok room low =
    Returns-mono (port_send s k)
      (λ r d.
        Returns-mono (port_recv s.dst for_kernel address size r.1)
          (λ r' got.
            got.reply
            ∙ ap₂ (λ bytes n. received bytes s.src s.code n) (take_all size s.payload room)
                (omega arith))
          (port_recv-Received r.1 s.dst p size (message_of s) [] (d.finds 3 s.dst ∙ can.found)
            can.real (put_message-PortOk k s p r d can.room ok)
            (ap (λ (x : Port). x.messages) d.put ∙ rw empty refl) for_kernel address low))
      (port_send-Delivered k s p can)
