-- ===== src/Netboot/Packets/Arp.antt =====
-- What blt/netboot/netboot.c does with a packet that asks for an address.
use os_open_blt.Base.{
  ℕ, ◌≡◌, refl, ◌&&◌, not, List, ◌∷◌, ◌==◌, if◌then◌else◌, Bool-cases, inl, inr, length, get_or,
}
use os_open_blt.Netboot.Packets.{
  bytes, half, ntohs, field, memcmp, Netboot, send, arp_packet, handle_arp, receive,
}
use os_open_blt.Netboot.Packets.Answers.{arrived, list_of}

-- The answer to the question for an address: it goes to the one who asked, and has the addresses of the two.
pub record Answers (b p : ℕ → ℕ) (s : Netboot) : Type 0 where
  pub to_asker : bytes 6 0 p ≡ bytes 6 6 b
  pub is_arp : (p 12 ≡ 8) × (p 13 ≡ 6)
  pub is_reply : ntohs (field 20 p) ≡ 2
  pub sender : (bytes 6 22 p ≡ s.prom) × (bytes 4 28 p ≡ s.ip)
  pub target : (bytes 6 32 p ≡ bytes 6 22 b) × (bytes 4 38 p ≡ bytes 4 28 b)

answers :
    (b prom ip : ℕ → ℕ) (s : Netboot)
    → s.prom ≡ bytes 6 0 prom
    → s.ip ≡ bytes 4 0 ip
    → Answers b
        (arrived
          (arp_packet 0x0806 2 (bytes 6 6 b) s.prom s.prom s.ip (bytes 6 22 b) (bytes 4 28 b)))
        s
unfolding bytes arp_packet half ntohs field
answers b prom ip s prom_is ip_is =
    rw (prom_is, ip_is)
      (record {
        to_asker = refl;
        is_arp = (refl, refl);
        is_reply = refl;
        sender = (refl, refl);
        target = (refl, refl);
      })

-- An ARP packet that asks for the address of this machine is answered by one packet, which has the addresses of both,
-- and changes nothing else; any other ARP packet changes nothing.
pub receive-Answers :
    (b : ℕ → ℕ) (s : Netboot)
    → length s.prom ≡ 6
    → length s.ip ≡ 4
    → (b 12 ≡ 8) × (b 13 ≡ 6)
    → if (ntohs (field 20 b) == 1) && not (memcmp (bytes 4 38 b) s.ip)
      then ((p : List ℕ) × (receive b s ≡ record s { sent = p ∷ s.sent }) × Answers b (arrived p) s)
      else (receive b s ≡ s)
unfolding receive handle_arp send
receive-Answers b s prom_size ip_size (eight, six) =
    elim (Bool-cases ((ntohs (field 20 b) == 1) && not (memcmp (bytes 4 38 b) s.ip))) [
      | inl asked ↦ rw asked (
        arp_packet 0x0806 2 (bytes 6 6 b) s.prom s.prom s.ip (bytes 6 22 b) (bytes 4 28 b),
        rw (eight, six) refl,
        answers b (λ i. get_or s.prom i 0) (λ i. get_or s.ip i 0) s (list_of 6 s.prom prom_size)
            (list_of 4 s.ip ip_size),
      )
      | inr other ↦ rw other (rw (eight, six) refl)
    ]
