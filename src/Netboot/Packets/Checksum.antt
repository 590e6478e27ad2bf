-- ===== src/Netboot/Packets/Checksum.antt =====
-- The checksum of a header in blt/netboot/netboot.c.
use os_open_blt.Base.{
  ℕ, ◌+◌, ◌-◌, ◌*◌, ◌/◌, ◌%◌, ◌≤◌, ◌≡◌, refl, ◌∙◌, ap, Bool, true, false, ◌&&◌, List, [], ◌∷◌, ◌++◌,
  ltb, if◌then◌else◌, arith,
}
use os_open_blt.Netboot.Packets.{half, halves, checksum_loop, ipchksum}

unfoldable pub are_bytes : List ℕ → Bool
are_bytes [] = true
are_bytes (x ∷ xs) = ltb x 256 && are_bytes xs

unfoldable pub is_even : List ℕ → Bool
is_even [] = true
is_even (x ∷ []) = false
is_even (x ∷ y ∷ xs) = is_even xs

unfoldable are_halves : List ℕ → Bool
are_halves [] = true
are_halves (w ∷ ws) = ltb w 0x10000 && are_halves ws

-- Two numbers added, with the carry put back.
unfoldable add : ℕ → ℕ → ℕ
add s w = if ltb 0xffff (s + w) then s + w - 0xffff else s + w

add-turn : (s c w : ℕ) → s ≤ 0xffff → c ≤ 0xffff → w ≤ 0xffff → add (add s c) w ≡ add (add s w) c
unfolding add
add-turn s c w p q r = ground (arith, p, q, r)

add-bound : (s w : ℕ) → s ≤ 0xffff → w ≤ 0xffff → add s w ≤ 0xffff
unfolding add
add-bound s w p q = ground (arith, p, q)

checksum_loop-bound :
    (ws : List ℕ) (s : ℕ) → are_halves ws ≡ true → s ≤ 0xffff → checksum_loop ws s ≤ 0xffff
unfolding checksum_loop are_halves add
checksum_loop-bound [] s ok small = small
checksum_loop-bound (w ∷ ws) s ok small =
    let one : w ≤ 0xffff = ground (arith, ok) in
    checksum_loop-bound ws (add s w) (ground (arith, ok)) (add-bound s w small one)

checksum_loop-add :
    (ws : List ℕ) (s c : ℕ)
    → are_halves ws ≡ true
    → s ≤ 0xffff
    → c ≤ 0xffff
    → checksum_loop ws (add s c) ≡ add (checksum_loop ws s) c
unfolding checksum_loop are_halves add
checksum_loop-add [] s c ok small c_small = refl
checksum_loop-add (w ∷ ws) s c ok small c_small =
    let one : w ≤ 0xffff = ground (arith, ok) in
    ap (checksum_loop ws) (add-turn s c w small c_small one)
    ∙ checksum_loop-add ws (add s w) c (ground (arith, ok)) (add-bound s w small one) c_small

-- A number in the place of a 0 is added to the sum.
checksum_loop-filled :
    (xs ys : List ℕ) (s c : ℕ)
    → are_halves xs ≡ true
    → are_halves ys ≡ true
    → s ≤ 0xffff
    → c ≤ 0xffff
    → checksum_loop (xs ++ c ∷ ys) s ≡ add (checksum_loop (xs ++ 0 ∷ ys) s) c
unfolding checksum_loop are_halves add
checksum_loop-filled [] ys s c ok ok' small c_small =
    checksum_loop-add ys s c ok' small c_small
    ∙ ap (λ t. add (checksum_loop ys t) c) (ground (arith, small))
checksum_loop-filled (x ∷ xs) ys s c ok ok' small c_small =
    let one : x ≤ 0xffff = ground (arith, ok) in
    checksum_loop-filled xs ys (add s x) c (ground (arith, ok)) ok' (add-bound s x small one)
      c_small

halves-append :
    (pre bs : List ℕ) → is_even pre ≡ true → halves (pre ++ bs) ≡ halves pre ++ halves bs
unfolding halves is_even
halves-append [] bs even = refl
halves-append (x ∷ []) bs even = ground (arith, even)
halves-append (x ∷ y ∷ pre) bs even = ap (λ ws. (x + y * 256) ∷ ws) (halves-append pre bs even)

halves-are_halves : (bs : List ℕ) → are_bytes bs ≡ true → are_halves (halves bs) ≡ true
unfolding halves are_bytes are_halves
halves-are_halves [] ok = refl
halves-are_halves (x ∷ []) ok = refl
halves-are_halves (x ∷ y ∷ bs) ok = ground (arith, ok, halves-are_halves bs (ground (arith, ok)))

append-are_halves :
    (xs ys : List ℕ) → are_halves xs ≡ true → are_halves ys ≡ true → are_halves (xs ++ ys) ≡ true
unfolding are_halves
append-are_halves [] ys ok ok' = ok'
append-are_halves (x ∷ xs) ys ok ok' =
    ground (arith, ok, append-are_halves xs ys (ground (arith, ok)) ok')

half-whole : (v : ℕ) → v ≤ 0xffff → v % 256 + (v / 256) % 256 * 256 ≡ v
half-whole v small = omega (arith, small)

-- The sum of a header with a number in its place.
header_sum :
    (pre post : List ℕ) (c : ℕ)
    → is_even pre ≡ true
    → are_bytes pre ≡ true
    → are_bytes post ≡ true
    → c ≤ 0xffff
    → checksum_loop (halves (pre ++ (half c ++ post))) 0
      ≡ add (checksum_loop (halves pre ++ 0 ∷ halves post) 0) c
unfolding half halves
header_sum pre post c even pre_ok post_ok small =
    ap (λ ws. checksum_loop ws 0)
      (halves-append pre (half c ++ post) even
        ∙ ap (λ v. halves pre ++ v ∷ halves post) (half-whole c small))
    ∙ checksum_loop-filled (halves pre) (halves post) 0 c (halves-are_halves pre pre_ok)
        (halves-are_halves post post_ok) (omega arith) small

-- A header of bytes, whose checksum stands at an even place, passes the test of `ipchksum` once the checksum that
-- `ipchksum` gives of it with a 0 in that place is filled in.
pub ipchksum-filled :
    (pre post : List ℕ)
    → is_even pre ≡ true
    → are_bytes pre ≡ true
    → are_bytes post ≡ true
    → ipchksum (pre ++ (half (ipchksum (pre ++ (0 ∷ 0 ∷ post))) ++ post)) ≡ 0
unfolding ipchksum halves are_halves add
ipchksum-filled pre post even pre_ok post_ok =
    let sum = checksum_loop (halves pre ++ 0 ∷ halves post) 0 in
    let bound : sum ≤ 0xffff =
      checksum_loop-bound (halves pre ++ 0 ∷ halves post) 0
        (append-are_halves (halves pre) (0 ∷ halves post) (halves-are_halves pre pre_ok)
          (halves-are_halves post post_ok))
        (omega arith) in
    let c = 0xffff - sum % 0x10000 in
    rw
      (
        halves-append pre (0 ∷ 0 ∷ post) even,
        header_sum pre post c even pre_ok post_ok (omega arith),
      )
      (ground (arith, bound))
