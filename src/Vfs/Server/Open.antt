-- ===== src/Vfs/Server/Open.antt =====
-- `vfs_opendir` of blt/srv/vfs/vfs.c and a client's table of descriptors.
use os_open_blt.Base.{
  same_text, ℕ, zero, suc, ◌+◌, ◌≤◌, ◌<◌, ◌≡◌, ◌≢◌, refl, true, Option, none, some, List, ◌==◌,
  if◌then◌else◌, length, arith, Bool-cases, Option-cases, inl, inr, Returns, Returns-elim,
  Returns-test,
}
use mathlib.Core.Option
use os_open_blt.Vfs.Types.{Vnode, Cookie, Superblock, VnodeOps, Vfs, Ofile, Client, Res}
use os_open_blt.Vfs.Mounts.{fs_find, is_prefix}
use os_open_blt.Vfs.Mounts.Find.{begins_longer, fs_find_begins}
use os_open_blt.Vfs.Server.{
  max_fds, enoent, emfile, enosys, free_fd, failed, finished, text_from, Request, new_ofile,
  set_ofile, sb_ops, walk_from, install, opendir_in, vfs_opendir,
}

-- Every descriptor below a number is in use.
abbrev pub Taken : (ℕ → Option Ofile) → ℕ → Type 0
Taken ofile n = (j : ℕ) → j < n → ofile j ≢ none

free_fd-here : (ofile : ℕ → Option Ofile) (n i : ℕ) → ofile i ≡ none → free_fd ofile (suc n) i ≡ i
unfolding free_fd
free_fd-here ofile n i is = rw (is, free_fd)

free_fd-next :
    (ofile : ℕ → Option Ofile) (n i : ℕ) (f : Ofile)
    → ofile i ≡ some f
    → free_fd ofile (suc n) i ≡ free_fd ofile n (i + 1)
unfolding free_fd
free_fd-next ofile n i f is = rw (is, free_fd)

-- The loop stops at the first free descriptor, or at the end.
pub free_fd-first :
    (ofile : ℕ → Option Ofile) (n i : ℕ)
    → Taken ofile i
    → Taken ofile (free_fd ofile n i)
      × (free_fd ofile n i ≤ i + n)
      × (free_fd ofile n i < i + n → ofile (free_fd ofile n i) ≡ none)
unfolding free_fd
free_fd-first ofile zero i taken = (taken, omega arith, λ h. ground (arith, h))
free_fd-first ofile (suc n) i taken = elim (Option-cases (ofile i)) [
  | inl is ↦ rw (free_fd-here ofile n i is) (taken, omega arith, λ h. is)
  | inr (f, is) ↦ rw (free_fd-next ofile n i f is) (
      let (low, most, free) =
        free_fd-first ofile n (i + 1) (λ j h. grind (arith, taken j, is, h)) in
      (low, omega (arith, most), λ h. free (omega (arith, h))))
]

-- A function that gives a cookie where it succeeds, if it is there.
abbrev pub GivesCookie : Option (Superblock → Vnode → ℕ × Option Cookie) → Type 0
GivesCookie o =
    (f : Superblock → Vnode → ℕ × Option Cookie) (sb : Superblock) (vnode : Vnode)
    → o ≡ some f
    → (f sb vnode).0 ≡ 0
    → (k : Cookie) × ((f sb vnode).1 ≡ some k)

-- What the server expects of a driver's operations.
pub record IsDriver (o : VnodeOps) : Type 0 where
  pub closes : o.has_closedir ≡ true
  pub opens_dir : GivesCookie o.opendir
  pub opens_file : GivesCookie o.open_file

-- The outcomes of opening a directory: the client and the answer that are returned.
pub data Outcome (c : Client) (r : Res × Client) : Type 0 where
  no_fd : Taken c.ofile max_fds → r ≡ (failed emfile, c) → Outcome c r
  no_file : r ≡ (failed enoent, c) → Outcome c r
  no_operation : r ≡ (failed enosys, c) → Outcome c r
  opened :
      (fd e : ℕ) (f : Ofile)
      → fd < max_fds
      → Taken c.ofile fd
      → c.ofile fd ≡ none
      → (e ≡ 0 → (k : Cookie) × (f.o_cookie ≡ some k))
      → r ≡ (finished e (some fd), set_ofile fd (some f) c)
      → Outcome c r

install-Outcome :
    (ops : ℕ → VnodeOps) (v : Vfs) (r : Request) (i pos : ℕ)
    (f : Superblock → Vnode → ℕ × Option Cookie) (c : Client) (found : Option Vnode)
    → ((sb : Superblock) (vnode : Vnode)
        → (f sb vnode).0 ≡ 0
        → (k : Cookie) × ((f sb vnode).1 ≡ some k))
    → i < max_fds
    → Taken c.ofile i
    → c.ofile i ≡ none
    → Outcome c (install ops v r i pos f c found)
unfolding install new_ofile
install-Outcome ops v r i pos f c none gives bound low free = Outcome.no_file refl
install-Outcome ops v r i pos f c (some vnode) gives bound low free =
    Outcome.opened i (f (v.super vnode.v_sb) vnode).0
      (new_ofile r vnode pos (f (v.super vnode.v_sb) vnode).1) bound low free
      (gives (v.super vnode.v_sb) vnode) refl

map_ne_none : {A B : Type 0} (f : A → B) (o : Option A) → o ≢ none → Option.map f o ≢ none
map_ne_none f none there = λ h. there refl
map_ne_none f (some a) there = λ h. ground (arith, h)

text_from_ne : (n : ℕ) (path : List ℕ) → n ≤ length path → text_from n path ≢ none
unfolding text_from
text_from_ne n path most = λ h. ground (arith, most, h)

walk_from_ne :
    (ops : ℕ → VnodeOps) (v : Vfs) (super : ℕ) (path : List ℕ)
    → length (v.super super).sb_dir < length path
    → walk_from ops v super path ≢ none
unfolding walk_from
walk_from_ne ops v super path more =
    let sb = v.super super in
    map_ne_none ((sb_ops ops v super).walk sb sb.sb_root) (text_from (length sb.sb_dir + 1) path)
      (text_from_ne (length sb.sb_dir + 1) path (omega (arith, more)))

module _ (ops : ℕ → VnodeOps) (drivers : (a : ℕ) → IsDriver (ops a)) (v : Vfs) (r : Request) where
  -- The operation is there and the vnode was looked for.
  install-Returns :
      (i pos : ℕ) (f : Superblock → Vnode → ℕ × Option Cookie) (c : Client)
      (found : Option (Option Vnode))
      → ((sb : Superblock) (vnode : Vnode)
          → (f sb vnode).0 ≡ 0
          → (k : Cookie) × ((f sb vnode).1 ≡ some k))
      → i < max_fds
      → Taken c.ofile i
      → c.ofile i ≡ none
      → (found ≢ none)
      → Returns (Outcome c) (Option.map (install ops v r i pos f c) found)
  install-Returns i pos f c none gives bound low free there = there refl
  install-Returns i pos f c (some found) gives bound low free there =
      install-Outcome ops v r i pos f c found gives bound low free

  opendir_in-Outcome :
      (i : ℕ) (dir : List ℕ) (c : Client) (super : ℕ)
      → i < max_fds
      → Taken c.ofile i
      → c.ofile i ≡ none
      → is_prefix (v.super super).sb_dir dir ≡ true
      → Returns (Outcome c) (opendir_in ops v r i dir c super)
  unfolding opendir_in sb_ops
  opendir_in-Outcome i dir c super bound low free begins =
      Returns-elim (Outcome c) (ops (v.super super).sb_vops).opendir _ _ (Outcome.no_operation refl)
        (λ f is.
          install-Returns i r.old_pos f c _
            (λ sb vnode. (drivers (v.super super).sb_vops).opens_dir f sb vnode is) bound low free
            (elim (Bool-cases (same_text dir (v.super super).sb_dir)) [
              | inl is_dir ↦ rw is_dir (λ h. ground (arith, h))
              | inr other ↦ rw other (
                  walk_from_ne ops v super dir
                    (begins_longer (v.super super).sb_dir dir begins other))
            ]))

  -- A descriptor and a mount are found, or an error is.
  search-Outcome :
      (path : List ℕ) (c : Client) (rest : ℕ → ℕ → Option (Res × Client))
      → ((i super : ℕ)
          → i < max_fds
          → Taken c.ofile i
          → c.ofile i ≡ none
          → fs_find path v ≡ some super
          → Returns (Outcome c) (rest i super))
      → Returns (Outcome c) (
          if free_fd c.ofile max_fds 0 == max_fds
          then some (failed emfile, c)
          else elim (fs_find path v) [
            | none ↦ some (failed enoent, c)
            | some super ↦ rest (free_fd c.ofile max_fds 0) super
          ])
  search-Outcome path c rest p =
      let (low, most, free) = free_fd-first c.ofile max_fds 0 (λ j h. omega (arith, h)) in
      let i = free_fd c.ofile max_fds 0 in
      Returns-test (Outcome c) (i == max_fds) (some (failed emfile, c)) _
        (λ full. Outcome.no_fd (λ j h. low j (ground (arith, full, h))) refl)
        (λ left.
          Returns-elim (Outcome c) (fs_find path v) (some (failed enoent, c)) (rest i)
            (Outcome.no_file refl)
            (λ super is.
              p i super (ground (arith, left, most)) low (free (ground (arith, left, most))) is))

  -- `vfs_opendir` returns, of whatever path: see `Outcome`.
  pub vfs_opendir-Outcome :
      (dir : List ℕ) (c : Client) → Returns (Outcome c) (vfs_opendir ops v r dir c)
  unfolding vfs_opendir
  vfs_opendir-Outcome dir c =
      search-Outcome dir c (λ i. opendir_in ops v r i dir c)
        (λ i super bound low free is.
          opendir_in-Outcome i dir c super bound low free (fs_find_begins dir v super is))
