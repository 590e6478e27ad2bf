-- ===== src/Netboot/Packets.antt =====
-- The packets of blt/netboot/netboot.c, on a machine that puts the low byte of a number first. A packet is the bytes
-- from its start on, those behind its end included, and a packet that is sent is the list of its bytes. The
-- memory is a function of the address. The driver of the card is left out, but for the packets given to it.
pub mod Checksum
pub mod Answers
pub mod Loads
pub mod Arp
use os_open_blt.Base.{
  ℕ, zero, suc, ◌+◌, ◌-◌, ◌*◌, ◌/◌, ◌%◌, Bool, true, false, ◌&&◌, ◌||◌, not, Option, none, some,
  List, [], ◌∷◌, ◌++◌, ◌==◌, ltb, leb, if◌then◌else◌, take,
}

-- `n` bytes from `i` on.
unfoldable pub bytes : ℕ → ℕ → (ℕ → ℕ) → List ℕ
bytes zero i b = []
bytes (suc n) i b = b i ∷ bytes n (i + 1) b

-- The low byte of a 16-bit number, and the high one.
unfoldable pub half : ℕ → List ℕ
half v = v % 256 ∷ (v / 256) % 256 ∷ []

-- `ntohs` and `htons`.
unfoldable pub ntohs : ℕ → ℕ
ntohs n = (n / 256) % 256 + n % 256 * 256

-- A 16-bit field.
unfoldable pub field : ℕ → (ℕ → ℕ) → ℕ
field i b = b i + b (i + 1) * 256

-- The 16-bit numbers in a list of bytes.
unfoldable pub halves : List ℕ → List ℕ
halves [] = []
halves (x ∷ []) = []
halves (x ∷ y ∷ bs) = (x + y * 256) ∷ halves bs

-- The loop of `ipchksum`.
unfoldable pub checksum_loop : List ℕ → ℕ → ℕ
checksum_loop [] sum = sum
checksum_loop (w ∷ ws) sum =
    checksum_loop ws (if ltb 0xffff (sum + w) then sum + w - 0xffff else sum + w)

-- `(~sum) & 0x0000FFFF`.
unfoldable pub ipchksum : List ℕ → ℕ
ipchksum bs = 0xffff - checksum_loop (halves bs) 0 % 0x10000

-- `memcmp`: whether the bytes differ.
unfoldable pub memcmp : List ℕ → List ℕ → Bool
memcmp [] ys = false
memcmp (x ∷ xs) [] = false
memcmp (x ∷ xs) (y ∷ ys) = if x == y then memcmp xs ys else true

-- The variables of the program: `sent` are the packets that it gave to the card, the last one first, and `started`
-- the address that it called. `ip_pointer` is what the bytes of the pointer `ip` are.
pub record Netboot : Type 0 where
  pub prom : List ℕ
  pub ip : List ℕ
  pub ip_pointer : List ℕ
  pub server_mac : List ℕ
  pub server_ip : List ℕ
  pub got_server : Bool
  pub got_ip : Bool
  pub reset : Bool
  pub id : ℕ
  pub memory : ℕ → ℕ
  pub sent : List (List ℕ)
  pub started : Option ℕ

pub send : List ℕ → Netboot → Netboot
send packet s = record s { sent = packet ∷ s.sent }

-- The header of an acknowledgement before its checksum, and behind it.
unfoldable pub header_start : Netboot → List ℕ
header_start s = 0x45 ∷ 0 ∷ half (ntohs 36) ++ half (ntohs s.id) ++ 0 ∷ 0 ∷ 128 ∷ 17 ∷ []

unfoldable pub header_end : Netboot → List ℕ
header_end s = s.ip_pointer ++ s.server_ip

unfoldable pub header : Netboot → List ℕ
header s =
    header_start s ++ (half (ipchksum (header_start s ++ (0 ∷ 0 ∷ header_end s))) ++ header_end s)

-- The acknowledgement of a packet.
pub acknowledgement : (ℕ → ℕ) → Netboot → List ℕ
acknowledgement b s =
    s.server_mac
    ++ s.prom
    ++ half (ntohs 0x0800)
    ++ header s
    ++ (bytes 2 36 b ++ bytes 2 34 b ++ half (ntohs 12) ++ 0 ∷ 0 ∷ half (ntohs 3) ++ bytes 2 44 b)

-- `memcpy` of `n` bytes of a packet, from `i` on, to an address.
unfoldable pub load : ℕ → ℕ → (ℕ → ℕ) → ℕ → (ℕ → ℕ) → ℕ → ℕ
load n i b addr memory a = if leb addr a && ltb a (addr + n) then b (i + (a - addr)) else memory a

-- A 32-bit number in the memory.
pub word_at : ℕ → (ℕ → ℕ) → ℕ
word_at a m = m a + m (a + 1) * 0x100 + m (a + 2) * 0x10000 + m (a + 3) * 0x1000000

-- The first packet tells the server.
pub meet_server : (ℕ → ℕ) → Netboot → Netboot
meet_server b s =
    if s.got_server
    then s
    else record s { server_mac = bytes 6 6 b; server_ip = bytes 4 26 b; got_server = true }

-- `handle_udp`, with the address of a boot_dir at 0x00100000, whose second entry has `be_code_ventr` at 116.
pub handle_udp : (ℕ → ℕ) → Netboot → Netboot
handle_udp b s =
    let cmd = ntohs (field 42 b) in
    let addr = ntohs (field 44 b) * 1024 + 0x100000 in
    let met = meet_server b s in
    let loaded = if cmd == 1 then record met { memory = load 1024 46 b addr met.memory } else met in
    let counted = record loaded { id = loaded.id + 1 } in
    if ntohs (field 36 b) == 4242
    then (if not (cmd == 1) && not (cmd == 2)
        then s
        else (if cmd == 2
            then record counted {
              started =
                  some ((word_at (0x100000 + 116) loaded.memory + 0x1000 + 0x100000) % 0x100000000);
            }
            else send (acknowledgement b loaded) counted))
    else s

pub handle_ip : (ℕ → ℕ) → Netboot → Netboot
handle_ip b s =
    if memcmp (bytes 4 30 b) s.ip
    then s
    else (if ipchksum (bytes 20 14 b) == 0 then (if b 23 == 17 then handle_udp b s else s) else s)

-- An `arp_packet` with an operation.
pub arp_packet : ℕ → ℕ → List ℕ → List ℕ → List ℕ → List ℕ → List ℕ → List ℕ → List ℕ
arp_packet type op dst src enet_sender ip_sender enet_target ip_target =
    dst
    ++ src
    ++ half (ntohs type)
    ++ half (ntohs 1)
    ++ half (ntohs 0x0800)
    ++ 6 ∷ 4 ∷ half (ntohs op)
    ++ enet_sender
    ++ ip_sender
    ++ enet_target
    ++ ip_target

abbrev bcast : List ℕ
bcast = 255 ∷ 255 ∷ 255 ∷ 255 ∷ 255 ∷ 255 ∷ []

pub issue_rarp_request : Netboot → Netboot
issue_rarp_request s =
    send (arp_packet 0x8035 3 bcast s.prom s.prom (take 4 bcast) s.prom (take 4 bcast)) s

pub handle_rarp : (ℕ → ℕ) → Netboot → Netboot
handle_rarp b s =
    if (ntohs (field 20 b) == 4) && not (memcmp (bytes 6 32 b) s.prom) && memcmp (bytes 4 38 b) s.ip
    then record s { ip = bytes 4 38 b; got_ip = true; reset = true }
    else s

pub handle_arp : (ℕ → ℕ) → Netboot → Netboot
handle_arp b s =
    if (ntohs (field 20 b) == 1) && not (memcmp (bytes 4 38 b) s.ip)
    then send (arp_packet 0x0806 2 (bytes 6 6 b) s.prom s.prom s.ip (bytes 6 22 b) (bytes 4 28 b)) s
    else s

pub receive : (ℕ → ℕ) → Netboot → Netboot
receive b s =
    if (b 12 == 0x80) && (b 13 == 0x35)
    then handle_rarp b s
    else (if not (b 12 == 0x08)
        then s
        else (if b 13 == 0x06 then handle_arp b s else (if b 13 == 0 then handle_ip b s else s)))
