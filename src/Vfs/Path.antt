-- ===== src/Vfs/Path.antt =====
-- blt/srv/vfs/path.c. A text that is built is kept with its last byte first.
pub mod Plain
pub mod Tests
use os_open_blt.Base.{
  ℕ, zero, suc, Bool, true, false, Option, none, some, List, [], ◌∷◌, ◌++◌, ◌==◌, ◌||◌,
  if◌then◌else◌, length, drop, reverse,
}
use mathlib.Core.Option

-- The text up to the 0 at its end.
pub text_to_zero : List ℕ → Option (List ℕ)
text_to_zero [] = none
text_to_zero (x ∷ xs) =
    let rest = text_to_zero xs in if x == 0 then some [] else Option.map (λ ys. x ∷ ys) rest

-- The loop that copies a component: what is built, and what is left of `t`.
pub copy_name : List ℕ → List ℕ → List ℕ × List ℕ
copy_name built [] = (built, [])
copy_name built (x ∷ t) = if x == b'/' then (built, x ∷ t) else copy_name (x ∷ built) t

-- Back to a `/`, or to the first byte.
pub go_up : List ℕ → List ℕ
go_up [] = []
go_up (x ∷ []) = x ∷ []
go_up (x ∷ y ∷ built) = if x == b'/' then x ∷ y ∷ built else go_up (y ∷ built)

-- `t` without a `/` at its front.
pub skip_slash : List ℕ → List ℕ
skip_slash [] = []
skip_slash (x ∷ t) = if x == b'/' then t else x ∷ t

-- A `..`, of which the first byte is passed: what is built, and what is left of `t`. The result is none where
-- the source goes on before the start of the text.
pub parent_step : List ℕ → List ℕ → Option (List ℕ × List ℕ)
parent_step [] t = none
parent_step (y ∷ []) t = some (y ∷ [], b'.' ∷ t)
parent_step (y ∷ z ∷ built) t = some (go_up (z ∷ built), skip_slash t)

-- A component that begins with a `.`, which is passed. The result is none where the source passes the 0 too.
pub dot_step : List ℕ → List ℕ → Option (List ℕ × List ℕ)
dot_step built [] = none
dot_step built (x ∷ t) =
    if x == b'/'
    then some (built, t)
    else (if x == b'.' then parent_step built t else some (copy_name (b'.' ∷ built) (x ∷ t)))

-- A round of the loop.
pub component_step : List ℕ → ℕ → List ℕ → Option (List ℕ × List ℕ)
component_step built x t =
    if x == b'/'
    then some (x ∷ built, t)
    else (if x == b'.' then dot_step built t else some (copy_name built (x ∷ t)))

-- The loop over the components of `t`. Each round takes a byte of it at least.
pub concat_loop : ℕ → List ℕ → List ℕ → Option (List ℕ)
concat_loop zero built t = none
concat_loop (suc fuel) built [] = some built
concat_loop (suc fuel) built (x ∷ t) =
    Option.bind (component_step built x t)
      (λ ((built', t') : List ℕ × List ℕ). concat_loop fuel built' t')

-- The end, where a `/` behind the first byte is taken off. The source reads before an empty text.
pub finish : List ℕ → Option (List ℕ)
finish [] = none
finish (x ∷ []) = some (x ∷ [])
finish (x ∷ y ∷ built) = some (reverse (if x == b'/' then y ∷ built else x ∷ y ∷ built))

pub path_concat : List ℕ → List ℕ → Option (List ℕ)
path_concat s t = Option.bind (concat_loop (suc (length t)) (reverse s) t) finish

-- `t` begins with a `/`.
pub is_absolute : List ℕ → Bool
is_absolute [] = false
is_absolute (x ∷ t) = x == b'/'

-- `d` is what the buffer held from the length of `s` on. Its first byte becomes a `/`, and the text that
-- `path_concat` finds ends at the next 0.
pub path_combine : List ℕ → List ℕ → List ℕ → Option (List ℕ)
path_combine s t d =
    if is_absolute t
    then path_concat [] t
    else Option.bind (text_to_zero (drop 1 d)) (λ rest. path_concat (s ++ b'/' ∷ rest) t)
