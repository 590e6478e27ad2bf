-- ===== src/Namer.antt =====
-- The name server, blt/srv/namer/namer.c. Nodes are kept by their addresses, of which the root has 0 and malloc
-- gives a new one each time; a directory's ring of nodes is a list. The numbers of the types are parameters, as their
-- header is not in the repository; a token of none is TOKEN_NONE. Texts are without the 0 at their end.
pub mod Created
pub mod Deleted
pub mod Tests
use os_open_blt.Base.{
  same_text, ℕ, zero, suc, ◌+◌, ◌-◌, ◌*◌, ◌/◌, Bool, true, false, ◌&&◌, ◌||◌, not, Option, none,
  some, List, [], ◌∷◌, ◌++◌, ◌==◌, ltb, if◌then◌else◌, length, update, take,
}
use mathlib.Core.Option

-- `nnode`; `entries` is the ring of a directory, and `bytes` what `data` has for another node.
pub record Nnode : Type 0 where
  pub parent : ℕ
  pub name : List ℕ
  pub type : ℕ
  pub token : ℕ
  pub size : ℕ
  pub entries : List ℕ
  pub bytes : List ℕ

pub record Namer : Type 0 where
  pub node : ℕ → Nnode
  pub next_node : ℕ
  pub lookup_token : ℕ → Option ℕ
  pub lookup_size : ℕ
  pub lookup_max : ℕ

unfoldable pub resolve : ℕ → Namer → Option ℕ
resolve token s = if ltb token s.lookup_size then s.lookup_token token else none

-- The loop that looks for a token, of `n` from `i` on.
unfoldable pub free_token : (ℕ → Option ℕ) → ℕ → ℕ → Option ℕ
free_token lookup zero i = none
free_token lookup (suc n) i = elim (lookup i) [
  | none ↦ some i
  | some node ↦ free_token lookup n (i + 1)
]

unfoldable pub next_token : ℕ → Namer → ℕ × Namer
next_token n s = (
  s.lookup_size,
  record s {
    lookup_token = update s.lookup_token s.lookup_size (some n);
    lookup_size = s.lookup_size + 1;
  },
)

unfoldable pub forge : ℕ → Namer → ℕ × Namer
forge n s =
    if ltb s.lookup_size s.lookup_max
    then next_token n s
    else elim (free_token s.lookup_token (s.lookup_size - 1) 1) [
      | some i ↦ (i, record s { lookup_token = update s.lookup_token i (some n) })
      | none ↦ next_token n (record s { lookup_max = s.lookup_max * 2 })
    ]

unfoldable pub destroy : ℕ → Namer → Namer
destroy token s =
    if ltb token s.lookup_size
    then record s { lookup_token = update s.lookup_token token none }
    else s

-- The loop of `find_entry`.
unfoldable pub find_name : (ℕ → Nnode) → List ℕ → List ℕ → Option ℕ
find_name node [] name = none
find_name node (l ∷ ls) name =
    if same_text name (node l).name then some l else find_name node ls name

-- A node out of a ring.
unfoldable pub unlinked : ℕ → List ℕ → List ℕ
unlinked n [] = []
unlinked n (l ∷ ls) = if l == n then ls else l ∷ unlinked n ls

unfoldable pub remove_entry : ℕ → ℕ → Namer → Namer
remove_entry parent n s = record s {
  node = update s.node parent (record (s.node parent) {
    size = (s.node parent).size - 1;
    entries = unlinked n (s.node parent).entries;
  });
}

-- The node that `add_entry` makes.
unfoldable pub new_node : ℕ → List ℕ → ℕ → ℕ → Nnode
new_node dir name type token = record {
  parent = dir;
  name = name;
  type = type;
  token = token;
  size = 0;
  entries = [];
  bytes = [];
}

abbrev pub root : ℕ
root = 0

module _ (type_directory : ℕ) where
  unfoldable pub find_entry : ℕ → List ℕ → Namer → Option ℕ
  find_entry dir name s =
      if (s.node dir).type == type_directory
      then (if same_text name (b'.' ∷ [])
          then some dir
          else (if same_text name (b'.' ∷ b'.' ∷ [])
              then some (s.node dir).parent
              else find_name s.node (s.node dir).entries name))
      else none

  unfoldable pub add_entry : ℕ → List ℕ → ℕ → Namer → Option ℕ × Namer
  add_entry dir name type s =
      let n = s.next_node in
      let forged = forge n s in
      let node' = update forged.1.node n (new_node dir name type forged.0) in
      if (s.node dir).type == type_directory
      then elim (find_entry dir name s) [
        | some other ↦ (none, s)
        | none ↦ (
          some n,
          record forged.1 {
            node = update node' dir (record (node' dir) {
              size = (node' dir).size + 1;
              entries = n ∷ (node' dir).entries;
            });
            next_node = n + 1;
          },
        )
      ]
      else (none, s)

  unfoldable pub namer_walk : ℕ → List ℕ → Namer → Option ℕ
  namer_walk token name s =
      Option.bind (resolve token s)
        (λ n. Option.map (λ found. (s.node found).token) (find_entry n name s))

  -- The token, the type and the size of what is found.
  unfoldable pub namer_stat : ℕ → List ℕ → Namer → Option (ℕ × ℕ × ℕ)
  namer_stat token name s = Option.bind (resolve token s) (λ n.
      Option.map (λ found. ((s.node found).token, (s.node found).type, (s.node found).size))
        (find_entry n name s))

  unfoldable pub namer_create : ℕ → List ℕ → ℕ → Namer → Option ℕ × Namer
  namer_create token name type s = elim (resolve token s) [
    | none ↦ (none, s)
    | some dir ↦
        let added = add_entry dir name type s in
        (Option.map (λ n. (added.1.node n).token) added.0, added.1)
  ]

  -- False is -1, here and below.
  unfoldable pub namer_delete : ℕ → Namer → Bool × Namer
  namer_delete token s = elim (resolve token s) [
    | none ↦ (false, s)
    | some n ↦
        if n == root
        then (false, s)
        else (if ((s.node n).type == type_directory) && not ((s.node n).size == 0)
            then (false, s)
            else (true, destroy (s.node n).token (remove_entry (s.node n).parent n s)))
  ]

  -- The type that is written is not looked at.
  unfoldable pub namer_write : ℕ → List ℕ → Namer → Bool × Namer
  namer_write token bytes s = elim (resolve token s) [
    | none ↦ (false, s)
    | some n ↦ if (s.node n).type == type_directory then (false, s) else (
      true,
      record s {
        node = update s.node n (record (s.node n) { size = length bytes; bytes = bytes });
      },
    )
  ]

  -- The bytes that are read into `data`, for a type that is none of TYPE_NAME and TYPE_ENTRIES.
  unfoldable pub namer_read : ℕ → ℕ → ℕ → Namer → Option (List ℕ)
  namer_read token type size s = Option.bind (resolve token s) (λ n.
      if (s.node n).type == type_directory
      then none
      else (if type == (s.node n).type
          then (if ltb size (s.node n).size then none else some (s.node n).bytes)
          else none))

  unfoldable pub namer_init : Namer
  namer_init = record {
    node = λ a. record {
      parent = 0;
      name = [];
      type = type_directory;
      token = 0;
      size = 0;
      entries = [];
      bytes = [];
    };
    next_node = 1;
    lookup_token = λ t. if t == 1 then some root else none;
    lookup_size = 2;
    lookup_max = 64;
  }
