-- ===== src/Kernel/Port/Tests.antt =====
-- The theorems about blt/kernel/port.c at the small kernel.
use os_open_blt.Base.{◌≡◌, refl, false, Returns, [], ◌∷◌, arith}
use os_open_blt.Kernel.Resource.{rsrc_find}
use os_open_blt.Kernel.Port.{Sending, port_send, port_recv, received}
use os_open_blt.Kernel.Port.Bounds.{PortOk, port_send-PortOk, port_recv-PortOk}
use os_open_blt.Kernel.Port.Fifo.{CanSend, port_recv-port_send}
use os_open_blt.Kernel.Demo.{demo, demo-Live, demo-PortOk, demo_mail}

abbrev letter : Sending
letter = record { src = 2; dst = 2; address = 0x1000; payload = 1 ∷ 2 ∷ 3 ∷ []; code = 7 }

letter-CanSend : CanSend demo letter 200
unfolding rsrc_find
letter-CanSend = record {
  sender = omega arith;
  found = refl;
  real = omega arith;
  no_slave = refl;
  room = omega arith;
  low = omega arith;
  short = omega arith;
}

at_200 : rsrc_find 3 2 demo ≡ 200
unfolding rsrc_find
at_200 = refl

owner_200 : (demo.rsrc (rsrc_find 3 2 demo)).owner ≡ (demo.rsrc demo.current).owner
owner_200 = rw at_200 refl

mail_at_200 : rsrc_find 3 2 demo_mail ≡ 200
unfolding rsrc_find
mail_at_200 = refl

port_send-PortOk_example : Returns (λ r. PortOk r.1 200) (port_send letter demo)
port_send-PortOk_example =
    port_send-PortOk demo demo-Live 200 (demo-PortOk 200) letter (λ p. omega arith)

port_recv-PortOk_example : Returns (λ r. PortOk r.1 200) (port_recv 2 false 0x2000 64 demo)
port_recv-PortOk_example =
    port_recv-PortOk demo demo-Live demo-PortOk 200 2 false 0x2000 64 (omega (arith, at_200))

port_recv-port_send_example :
    Returns
      (λ r.
        Returns (λ r'. r'.0 ≡ received (1 ∷ 2 ∷ 3 ∷ []) 2 7 3) (port_recv 2 false 0x2000 64 r.1))
      (port_send letter demo)
port_recv-port_send_example =
    port_recv-port_send demo letter 200 64 false 0x2000 letter-CanSend refl (demo-PortOk 200)
      (omega arith) (omega arith)
