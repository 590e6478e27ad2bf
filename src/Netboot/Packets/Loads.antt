-- ===== src/Netboot/Packets/Loads.antt =====
-- What blt/netboot/netboot.c does with a packet for the loader.
use os_open_blt.Base.{
  ℕ, zero, suc, ◌+◌, ◌*◌, ◌≤◌, ◌<◌, ◌≡◌, refl, sym, ◌∙◌, ap, Bool, true, false, ◌&&◌, List, [], ◌∷◌,
  ltb, leb, if◌then◌else◌, arith, length, get_or, ◌⊎◌,
}
use mathlib.Core.Path.{subst}
use os_open_blt.Netboot.Packets.{
  bytes, ntohs, field, ipchksum, memcmp, Netboot, send, acknowledgement, load, meet_server,
  handle_udp, handle_ip, receive,
}
use os_open_blt.Netboot.Packets.Checksum.{are_bytes}
use os_open_blt.Netboot.Packets.Answers.{arrived, list_of, IsNetboot, Acknowledges, acknowledges}

pub memcmp_refl : (xs : List ℕ) → memcmp xs xs ≡ false
unfolding memcmp
memcmp_refl [] = refl
memcmp_refl (x ∷ xs) = ground (arith, memcmp_refl xs)

bytes-length : (n i : ℕ) (b : ℕ → ℕ) → length (bytes n i b) ≡ n
unfolding bytes
bytes-length zero i b = refl
bytes-length (suc n) i b = ap suc (bytes-length n (i + 1) b)

bytes-are_bytes : (n i : ℕ) (b : ℕ → ℕ) → ((j : ℕ) → b j < 256) → are_bytes (bytes n i b) ≡ true
unfolding bytes are_bytes
bytes-are_bytes zero i b small = refl
bytes-are_bytes (suc n) i b small = ground (arith, small i, bytes-are_bytes n (i + 1) b small)

-- An IP packet for this machine, with a right header, that has a UDP packet for the loader's port.
pub record IsForLoader (b : ℕ → ℕ) (s : Netboot) : Type 0 where
  pub small : (j : ℕ) → b j < 256
  pub is_ip : (b 12 ≡ 8) × (b 13 ≡ 0)
  pub to_us : bytes 4 30 b ≡ s.ip
  pub header_right : ipchksum (bytes 20 14 b) ≡ 0
  pub is_udp : b 23 ≡ 17
  pub to_port : ntohs (field 36 b) ≡ 4242

receive-udp : (b : ℕ → ℕ) (s : Netboot) → IsForLoader b s → receive b s ≡ handle_udp b s
unfolding receive handle_ip
receive-udp b s ok =
    let (eight, nil) = ok.is_ip in
    rw (eight, nil, ok.to_us, memcmp_refl s.ip, ok.header_right, ok.is_udp) refl

-- What meeting the server keeps and learns.
record IsMet (b : ℕ → ℕ) (s t : Netboot) : Type 0 where
  same_memory : t.memory ≡ s.memory
  same_sent : t.sent ≡ s.sent
  known : t.server_mac ≡ (if s.got_server then s.server_mac else bytes 6 6 b)
  sizes : IsNetboot t

meet_server-IsMet :
    (b : ℕ → ℕ) (s : Netboot) → ((j : ℕ) → b j < 256) → IsNetboot s → IsMet b s (meet_server b s)
unfolding meet_server
meet_server-IsMet b s small ok = go s.got_server
  where
    go :
        (got : Bool)
        → IsMet b
            (record s { got_server = got })
            (if got then s else record s {
              server_mac = bytes 6 6 b;
              server_ip = bytes 4 26 b;
              got_server = true;
            })
    go true = record { same_memory = refl; same_sent = refl; known = refl; sizes = ok }
    go false = record {
      same_memory = refl;
      same_sent = refl;
      known = refl;
      sizes = record {
        prom_size = ok.prom_size;
        ip_size = ok.ip_size;
        pointer_size = ok.pointer_size;
        mac_size = bytes-length 6 6 b;
        server_size = bytes-length 4 26 b;
        pointer_bytes = ok.pointer_bytes;
        server_bytes = bytes-are_bytes 4 26 b small;
      };
    }

-- The state after a LOAD, but for the answer.
loaded : (ℕ → ℕ) → Netboot → Netboot
loaded b s =
    let met = meet_server b s in
    record met { memory = load 1024 46 b (ntohs (field 44 b) * 1024 + 0x100000) met.memory }

handle_udp-load :
    (b : ℕ → ℕ) (s : Netboot)
    → ntohs (field 36 b) ≡ 4242
    → ntohs (field 42 b) ≡ 1
    → handle_udp b s
      ≡ send
          (acknowledgement b (loaded b s))
          (record (loaded b s) { id = (meet_server b s).id + 1 })
unfolding handle_udp loaded
handle_udp-load b s port loads = rw (port, loads) refl

load-there :
    (n i : ℕ) (b : ℕ → ℕ) (addr : ℕ) (m : ℕ → ℕ) (k : ℕ)
    → k < n
    → load n i b addr m (addr + k) ≡ b (i + k)
unfolding load
load-there n i b addr m k small =
    let inside : (leb addr (addr + k) && ltb (addr + k) (addr + n)) ≡ true =
      ground (arith, small) in
    rw inside (ap b (omega arith))

load-elsewhere :
    (n i : ℕ) (b : ℕ → ℕ) (addr : ℕ) (m : ℕ → ℕ) (a : ℕ)
    → (a < addr) ⊎ (addr + n ≤ a)
    → load n i b addr m a ≡ m a
unfolding load
load-elsewhere n i b addr m a other =
    let outside : (leb addr a && ltb a (addr + n)) ≡ false = ground (arith, other) in
    rw outside refl

-- The block of a packet is in the memory, the rest of the memory is what it was, and one packet was sent, which
-- acknowledges the block.
pub record IsLoaded (b : ℕ → ℕ) (s t : Netboot) : Type 0 where
  pub there : (i : ℕ) → i < 1024 → t.memory (ntohs (field 44 b) * 1024 + 0x100000 + i) ≡ b (46 + i)
  pub elsewhere :
      (a : ℕ)
      → (a < ntohs (field 44 b) * 1024 + 0x100000)
        ⊎ (ntohs (field 44 b) * 1024 + 0x100000 + 1024 ≤ a)
      → t.memory a ≡ s.memory a
  pub answer : List ℕ
  pub sent_one : t.sent ≡ answer ∷ s.sent
  pub acknowledged :
      Acknowledges (if s.got_server then s.server_mac else bytes 6 6 b) b (arrived answer)

-- A packet for the loader with the LOAD command has its 1024 bytes put at the address of its block, and nowhere else,
-- and one packet is sent, to the server that was first heard of: an acknowledgement of the block, from the port
-- that was addressed to the one that sent, with a header that passes the test of a receiver.
pub receive-IsLoaded :
    (b : ℕ → ℕ) (s : Netboot)
    → IsNetboot s
    → IsForLoader b s
    → ntohs (field 42 b) ≡ 1
    → IsLoaded b s (receive b s)
unfolding loaded load send
receive-IsLoaded b s sizes ok loads =
    let met = meet_server-IsMet b s ok.small sizes in
    let t = loaded b s in
    let at = met.sizes in
    subst (IsLoaded b s) (sym (receive-udp b s ok ∙ handle_udp-load b s ok.to_port loads)) (record {
      there = λ i small.
          load-there 1024 46 b (ntohs (field 44 b) * 1024 + 0x100000) (meet_server b s).memory i
            small;
      elsewhere = λ a other.
          load-elsewhere 1024 46 b (ntohs (field 44 b) * 1024 + 0x100000) (meet_server b s).memory a
            other
          ∙ ap (λ m. m a) met.same_memory;
      answer = acknowledgement b t;
      sent_one = ap (λ l. acknowledgement b t ∷ l) met.same_sent;
      acknowledged =
          subst (λ m. Acknowledges m b (arrived (acknowledgement b t))) met.known
            (acknowledges b (λ i. get_or t.server_mac i 0) (λ i. get_or t.prom i 0)
              (λ i. get_or t.ip_pointer i 0) (λ i. get_or t.server_ip i 0) t
              (list_of 6 t.server_mac at.mac_size) (list_of 6 t.prom at.prom_size)
              (list_of 4 t.ip_pointer at.pointer_size) (list_of 4 t.server_ip at.server_size)
              at.pointer_bytes at.server_bytes);
    })
