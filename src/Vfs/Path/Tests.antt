-- ===== src/Vfs/Path/Tests.antt =====
-- A file in the directory `/a`.
use os_open_blt.Base.{ℕ, ◌≡◌, refl, some, List, [], ◌∷◌, ◌++◌}
use os_open_blt.Vfs.Path.{path_concat}
use os_open_blt.Vfs.Path.Plain.{plain, path_concat-plain}

abbrev a_slash : List ℕ
a_slash = b'/' ∷ b'a' ∷ b'/' ∷ []

path_concat-plain_example : path_concat a_slash (b'b' ∷ b'/' ∷ []) ≡ some (a_slash ++ b'b' ∷ [])
unfolding plain
path_concat-plain_example =
    path_concat-plain a_slash (b'b' ∷ b'/' ∷ []) (b'a' ∷ b'/' ∷ b'b' ∷ []) b'/' b'/' refl refl
