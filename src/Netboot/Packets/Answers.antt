-- ===== src/Netboot/Packets/Answers.antt =====
-- The acknowledgement that blt/netboot/netboot.c sends, as a packet that arrives.
use os_open_blt.Base.{
  ℕ, zero, suc, ◌+◌, ◌<◌, ◌≡◌, refl, sym, ◌∙◌, ap, true, List, [], ◌∷◌, ◌++◌, arith, length, get_or,
}
use os_open_blt.Netboot.Packets.{
  bytes, half, ntohs, field, ipchksum, Netboot, header_start, header_end, header, acknowledgement,
}
use os_open_blt.Netboot.Packets.Checksum.{are_bytes, is_even, ipchksum-filled}

-- A packet that was sent, as one that arrives.
abbrev pub arrived : List ℕ → ℕ → ℕ
arrived packet i = get_or packet i 0

pub arrived-small : (packet : List ℕ) (i : ℕ) → are_bytes packet ≡ true → arrived packet i < 256
unfolding are_bytes
arrived-small [] i ok = omega arith
arrived-small (x ∷ packet) zero ok = ground (arith, ok)
arrived-small (x ∷ packet) (suc i) ok = arrived-small packet i (ground (arith, ok))

list_at :
    (xs : List ℕ) (i : ℕ) (f : ℕ → ℕ)
    → ((j : ℕ) → j < length xs → f (i + j) ≡ get_or xs j 0)
    → xs ≡ bytes (length xs) i f
unfolding bytes
list_at [] i f is = refl
list_at (x ∷ xs) i f is =
    ap (λ y. y ∷ xs) (sym (is 0 (omega arith)) ∙ ap f (omega arith))
    ∙ ap (λ ys. f i ∷ ys)
        (list_at xs (i + 1) f (λ j small. ap f (omega arith) ∙ is (suc j) (omega (arith, small))))

-- A list of a size is its elements.
pub list_of : (n : ℕ) (xs : List ℕ) → length xs ≡ n → xs ≡ bytes n 0 (λ i. get_or xs i 0)
list_of n xs size =
    list_at xs 0 (λ i. get_or xs i 0) (λ j small. ap (λ k. get_or xs k 0) (omega arith))
    ∙ ap (λ m. bytes m 0 (λ i. get_or xs i 0)) size

append-are_bytes :
    (xs ys : List ℕ) → are_bytes xs ≡ true → are_bytes ys ≡ true → are_bytes (xs ++ ys) ≡ true
unfolding are_bytes
append-are_bytes [] ys ok ok' = ok'
append-are_bytes (x ∷ xs) ys ok ok' =
    ground (arith, ok, append-are_bytes xs ys (ground (arith, ok)) ok')

-- The header of an acknowledgement passes the test that `handle_ip` makes.
header_checked :
    (s : Netboot)
    → are_bytes s.ip_pointer ≡ true
    → are_bytes s.server_ip ≡ true
    → ipchksum (header s) ≡ 0
unfolding header header_start header_end half are_bytes is_even
header_checked s pointer_ok server_ok =
    ipchksum-filled (header_start s) (header_end s) refl (ground arith)
      (append-are_bytes s.ip_pointer s.server_ip pointer_ok server_ok)

-- The addresses have their sizes, and are bytes.
pub record IsNetboot (s : Netboot) : Type 0 where
  pub prom_size : length s.prom ≡ 6
  pub ip_size : length s.ip ≡ 4
  pub pointer_size : length s.ip_pointer ≡ 4
  pub mac_size : length s.server_mac ≡ 6
  pub server_size : length s.server_ip ≡ 4
  pub pointer_bytes : are_bytes s.ip_pointer ≡ true
  pub server_bytes : are_bytes s.server_ip ≡ true

-- A packet answers another: it goes to a server, from the port of the one to the port of the other, it acknowledges
-- the block, and its header has a right checksum.
pub record Acknowledges (mac : List ℕ) (b p : ℕ → ℕ) : Type 0 where
  pub to_server : bytes 6 0 p ≡ mac
  pub is_ip : (p 12 ≡ 8) × (p 13 ≡ 0) × (p 23 ≡ 17)
  pub ports : (field 34 p ≡ field 36 b) × (field 36 p ≡ field 34 b)
  pub cmd : ntohs (field 42 p) ≡ 3
  pub blk : field 44 p ≡ field 44 b
  pub checked : ipchksum (bytes 20 14 p) ≡ 0

module _ (b mac prom pointer server : ℕ → ℕ) where
  pub acknowledges :
      (s : Netboot)
      → s.server_mac ≡ bytes 6 0 mac
      → s.prom ≡ bytes 6 0 prom
      → s.ip_pointer ≡ bytes 4 0 pointer
      → s.server_ip ≡ bytes 4 0 server
      → are_bytes s.ip_pointer ≡ true
      → are_bytes s.server_ip ≡ true
      → Acknowledges s.server_mac b (arrived (acknowledgement b s))
  unfolding acknowledgement bytes half field header header_start header_end ntohs
  acknowledges s mac_is prom_is pointer_is server_is pointer_ok server_ok =
      let checked = rw (pointer_is, server_is) at (header_checked s pointer_ok server_ok) in
      rw (mac_is, prom_is, pointer_is, server_is)
        (record {
          to_server = refl;
          is_ip = (refl, refl, refl);
          ports = (refl, refl);
          cmd = refl;
          blk = refl;
          checked = checked;
        })
