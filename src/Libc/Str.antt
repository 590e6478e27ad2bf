-- ===== src/Libc/Str.antt =====
-- blt/lib/libc/string.c on bytes in memory: `m` is a function from addresses to the values of `char`. A
-- function that returns its first argument gives the memory only. NULL is 0.
pub mod Moves
pub mod Strings
pub mod Compare
pub mod Tests
use os_open_blt.Base.{
  ℕ, zero, suc, ◌+◌, Bool, Option, none, some, ◌==◌, ◌||◌, ltb, if◌then◌else◌, update,
}
use os_open_blt.Base.Int.{ℤ, pos, negsuc}

pub strncpy : ℕ → ℕ → ℕ → (ℕ → ℕ) → ℕ → ℕ
unfolding update
strncpy dst src zero m = m
strncpy dst src (suc size) m =
    if m src == 0 then update m dst 0 else strncpy (dst + 1) (src + 1) size (update m dst (m src))

pub strncmp : ℕ → ℕ → ℕ → (ℕ → ℕ) → ℤ
strncmp s1 s2 zero m = pos 0
strncmp s1 s2 (suc n) m =
    if m s1 == 0 || m s2 == 0
    then negsuc 0
    else if m s1 == m s2
    then strncmp (s1 + 1) (s2 + 1) n m
    else negsuc 0

-- `none`: the fuel is out.
pub strchr : ℕ → ℕ → ℕ → (ℕ → ℕ) → Option ℕ
strchr zero cs c m = none
strchr (suc fuel) cs c m =
    if m cs == 0 then some 0 else if m cs == c then some cs else strchr fuel (cs + 1) c m

-- `c` is a byte.
pub memset : ℕ → ℕ → ℕ → (ℕ → ℕ) → ℕ → ℕ
unfolding update
memset s c zero m = m
memset s c (suc n) m = memset (s + 1) c n (update m s c)

-- The two loops of `memmove`.
pub move_up : ℕ → ℕ → ℕ → (ℕ → ℕ) → ℕ → ℕ
unfolding update
move_up d s zero m = m
move_up d s (suc n) m = move_up (d + 1) (s + 1) n (update m d (m s))

pub move_down : ℕ → ℕ → ℕ → (ℕ → ℕ) → ℕ → ℕ
unfolding update
move_down dest src zero m = m
move_down dest src (suc n) m = move_down dest src n (update m (dest + n) (m (src + n)))

pub memmove : ℕ → ℕ → ℕ → (ℕ → ℕ) → ℕ → ℕ
memmove dest src n m = if ltb dest src then move_up dest src n m else move_down dest src n m

pub memcmp : ℕ → ℕ → ℕ → (ℕ → ℕ) → ℤ
memcmp dst src zero m = pos 0
memcmp dst src (suc size) m = if m dst == m src then memcmp (dst + 1) (src + 1) size m else pos 1

pub memcpy : ℕ → ℕ → ℕ → (ℕ → ℕ) → ℕ → ℕ
unfolding update
memcpy dst src zero m = m
memcpy dst src (suc size) m = memcpy (dst + 1) (src + 1) size (update m dst (m src))
