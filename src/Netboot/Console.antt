-- ===== src/Netboot/Console.antt =====
-- The console of blt/netboot/netboot.c: keys to a line, and lines to settings. A text is a list of bytes without the
-- 0 at its end. What is drawn on the screen is left out.
pub mod Typed
pub mod Editor
pub mod Address
use os_open_blt.Base.{
  same_text, ℕ, zero, suc, ◌+◌, ◌-◌, ◌*◌, ◌%◌, Bool, true, false, ◌&&◌, ◌||◌, List, [], ◌∷◌, ◌++◌,
  ◌==◌, ltb, leb, if◌then◌else◌, get_or, reverse, update, not,
}

-- `ip`, `param` and `ipmsg`.
pub record Settings : Type 0 where
  pub ip : List ℕ
  pub param : List ℕ
  pub is_manual : Bool

-- The digits up to a `.` or the end; only the lowest byte of `v` is used.
unfoldable pub read_number : List ℕ → ℕ → ℕ × List ℕ
read_number [] v = (v, [])
read_number (x ∷ s) v =
    if x == b'.' then (v, x ∷ s) else read_number s ((v * 10 + x + (256 - b'0')) % 256)

-- `read_ip` for so many bytes of `ip`.
unfoldable pub read_ip : ℕ → List ℕ → List ℕ → List ℕ
read_ip zero s ip = ip
read_ip (suc i) s [] = []
read_ip (suc i) s (old ∷ ip) =
    let number = read_number s 0 in
    elim number.1 [ [] ↦ number.0 ∷ ip | dot ∷ s' ↦ number.0 ∷ read_ip i s' ip ]

pub option : List ℕ → List ℕ → Settings → Settings
option lhs rhs set =
    if same_text lhs (b'i' ∷ b'p' ∷ [])
    then record set { ip = read_ip 4 rhs set.ip; is_manual = true }
    else set

-- The states of `parse`.
pub data State : Type 0 where
  skip : State
  left : State
  right : State

-- `*p > ' '`, where a `char` is signed.
pub is_visible : ℕ → Bool
is_visible x = ltb b' ' x && ltb x 128

-- The loop of `parse`, with the bytes since `lhs` and since `rhs`, the last of them first.
pub parse_loop : State → List ℕ → List ℕ → List ℕ → Settings → Settings
parse_loop skip [] lhs rhs set = set
parse_loop left [] lhs rhs set = set
parse_loop right [] lhs rhs set = option (reverse lhs) (reverse rhs) set
parse_loop skip (x ∷ p) lhs rhs set =
    let go_on = parse_loop skip p lhs rhs set in
    let to_right = parse_loop right p [] [] set in
    let to_left = parse_loop left p (x ∷ []) rhs set in
    if is_visible x then (if x == b'=' then to_right else to_left) else go_on
parse_loop left (x ∷ p) lhs rhs set =
    let to_right = parse_loop right p lhs [] set in
    let go_on = parse_loop left p (x ∷ lhs) rhs set in if x == b'=' then to_right else go_on
parse_loop right (x ∷ p) lhs rhs set =
    let go_on = parse_loop right p lhs (x ∷ rhs) set in
    let done = parse_loop skip p lhs rhs (option (reverse lhs) (reverse rhs) set) in
    if is_visible x then go_on else done

pub parse : List ℕ → Settings → Settings
parse p set = parse_loop skip p [] [] set

-- What is behind `boot=`, if a command begins so.
pub boot_param : List ℕ → List ℕ × Bool
boot_param (b ∷ o ∷ o' ∷ t ∷ e ∷ cmd) =
    (cmd, (b == b'b') && (o == b'o') && (o' == b'o') && (t == b't') && (e == b'='))
boot_param cmd = ([], false)

-- `command`, which changes a copy of the line: the line is filled again before it is used.
pub command : List ℕ → Settings → Bool × Settings
command cmd set =
    let boot = boot_param cmd in
    if same_text cmd (b'g' ∷ b'o' ∷ [])
    then (true, set)
    else (if boot.1 then (false, record set { param = boot.0 }) else (false, parse cmd set))

-- `linebuf` and `lp`.
pub record Line : Type 0 where
  pub linebuf : ℕ → ℕ
  pub lp : ℕ

-- Spaces, `n` of them from `i` on.
unfoldable pub blank : ℕ → ℕ → (ℕ → ℕ) → ℕ → ℕ
blank zero i b = b
blank (suc n) i b = blank n (i + 1) (update b i b' ')

-- A text, from `i` on.
pub put : List ℕ → ℕ → (ℕ → ℕ) → ℕ → ℕ
put [] i b = b
put (x ∷ xs) i b = put xs (i + 1) (update b i x)

abbrev prompt : List ℕ
prompt = b'n' ∷ b'e' ∷ b't' ∷ b'b' ∷ b'o' ∷ b'o' ∷ b't' ∷ b'>' ∷ b' ' ∷ []

pub newline : Line → Line
newline line = record { linebuf = update (blank 70 9 (put prompt 0 line.linebuf)) 79 0; lp = 9 }

-- The text at `i`, of `n` bytes at most.
unfoldable pub text_at : ℕ → ℕ → (ℕ → ℕ) → List ℕ
text_at zero i b = []
text_at (suc n) i b = let rest = text_at n (i + 1) b in if b i == 0 then [] else b i ∷ rest

pub keypress : ℕ → Line → Settings → Bool × Line × Settings
keypress key line set =
    let ended = record line { linebuf = update line.linebuf line.lp 0 } in
    let ran = command (text_at 71 9 ended.linebuf) set in
    if key == 27
    then (false, record line { linebuf = blank 70 9 line.linebuf; lp = 9 }, set)
    else (if key == 13
        then (if ran.0 then (true, ended, ran.1) else (false, newline ended, ran.1))
        else (if key == 8
            then (
              false,
              (if ltb 9 line.lp
                  then record line {
                    linebuf = update line.linebuf (line.lp - 1) b' ';
                    lp = line.lp - 1;
                  }
                  else line),
              set,
            )
            else (
              false,
              (if ltb line.lp 79
                  then record line { linebuf = update line.linebuf line.lp key; lp = line.lp + 1 }
                  else line),
              set,
            )))

abbrev scan_table : List ℕ
scan_table =
    b' ' ∷ 27 ∷ b'1' ∷ b'2' ∷ b'3' ∷ b'4' ∷ b'5' ∷ b'6' ∷ b'7' ∷ b'8' ∷ b'9' ∷ b'0' ∷ b'-' ∷ b'='
    ∷ 8 ∷ 9 ∷ b'q' ∷ b'w' ∷ b'e' ∷ b'r' ∷ b't' ∷ b'y' ∷ b'u' ∷ b'i' ∷ b'o' ∷ b'p' ∷ b'[' ∷ b']' ∷ 13
    ∷ b' ' ∷ b'a' ∷ b's' ∷ b'd' ∷ b'f' ∷ b'g' ∷ b'h' ∷ b'j' ∷ b'k' ∷ b'l' ∷ b';' ∷ 39 ∷ b'~' ∷ b' '
    ∷ 92 ∷ b'z' ∷ b'x' ∷ b'c' ∷ b'v' ∷ b'b' ∷ b'n' ∷ b'm' ∷ b',' ∷ b'.' ∷ b'/' ∷ b' ' ∷ b' ' ∷ b' '
    ∷ b' ' ∷ b' ' ∷ []

abbrev shift_table : List ℕ
shift_table =
    b' ' ∷ 27 ∷ b'!' ∷ b'@' ∷ b'#' ∷ b'$' ∷ b'%' ∷ b'^' ∷ b'&' ∷ b'*' ∷ b'(' ∷ b')' ∷ b'_' ∷ b'+'
    ∷ b' ' ∷ b' ' ∷ b'Q' ∷ b'W' ∷ b'E' ∷ b'R' ∷ b'T' ∷ b'Y' ∷ b'U' ∷ b'I' ∷ b'O' ∷ b'P' ∷ b'{'
    ∷ b'}' ∷ 13 ∷ b' ' ∷ b'A' ∷ b'S' ∷ b'D' ∷ b'F' ∷ b'G' ∷ b'H' ∷ b'J' ∷ b'K' ∷ b'L' ∷ b':' ∷ 34
    ∷ b'~' ∷ b' ' ∷ b'|' ∷ b'Z' ∷ b'X' ∷ b'C' ∷ b'V' ∷ b'B' ∷ b'N' ∷ b'M' ∷ b'<' ∷ b'>' ∷ b'?'
    ∷ b' ' ∷ b' ' ∷ b' ' ∷ b' ' ∷ b' ' ∷ []

-- What a code from the keyboard does to `shift`, and the key that it stands for, or 0.
pub scan : Bool → ℕ → Bool × ℕ
scan shift code =
    if (code == 42) || (code == 54)
    then (true, 0)
    else (if (code == 170) || (code == 182)
        then (false, 0)
        else (if leb 128 code
            then (shift, 0)
            else (if ltb code 59
                then (shift, get_or (if shift then shift_table else scan_table) code 0)
                else (shift, 0))))

-- The loop of `console` over the codes that the keyboard gives, up to a `go`.
pub console : List ℕ → Bool → Line → Settings → Bool × Line × Settings
console [] shift line set = (false, line, set)
console (code ∷ codes) shift line set =
    let key = scan shift code in
    let pressed = keypress key.1 line set in
    let ignored = console codes key.0 line set in
    let rest = console codes key.0 pressed.1 pressed.2 in
    if key.1 == 0 then ignored else (if pressed.0 then pressed else rest)
