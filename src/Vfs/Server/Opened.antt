-- ===== src/Vfs/Server/Opened.antt =====
-- `vfs_open` of blt/srv/vfs/vfs.c, case by case.
use os_open_blt.Base.{
  ℕ, ◌+◌, ◌<◌, ◌≡◌, refl, true, Option, none, some, List, ◌==◌, leb, length, drop, arith,
  Bool-cases, Option-cases, inl, inr, Returns,
}
use os_open_blt.Vfs.Types.{Vnode, Cookie, Superblock, VnodeOps, Vfs, Ofile, Client, Res}
use os_open_blt.Vfs.Mounts.{fs_find}
use os_open_blt.Vfs.Server.{
  max_fds, enoent, emfile, enosys, free_fd, failed, finished, text_from, Request, new_ofile,
  set_ofile, sb_ops, walk_from, install, open_in, vfs_open,
}
use os_open_blt.Vfs.Server.Open.{Taken, free_fd-first}

-- The lowest descriptor that is free.
pub record FirstFree (c : Client) (fd : ℕ) : Type 0 where
  pub bound : fd < max_fds
  pub low : Taken c.ofile fd
  pub free : c.ofile fd ≡ none

-- Where the path goes on after the mount's directory and a `/`.
abbrev pub WalksOn : Vfs → List ℕ → Type 0
WalksOn v path = (a : ℕ) → fs_find path v ≡ some a → length (v.super a).sb_dir < length path

module _ (ops : ℕ → VnodeOps) (v : Vfs) (r : Request) (path : List ℕ) (c : Client) where
  -- What the mount's file system gives for the rest of the path.
  abbrev pub walked : ℕ → Option Vnode
  walked super =
      let sb = v.super super in
      (ops sb.sb_vops).walk sb sb.sb_root (drop (length sb.sb_dir + 1) path)

  -- The mount of the path has the operation.
  pub record Mount (super : ℕ) (f : Superblock → Vnode → ℕ × Option Cookie) : Type 0 where
    pub found : fs_find path v ≡ some super
    pub opens : (ops (v.super super).sb_vops).open_file ≡ some f

  -- What the operation answers for the vnode, and the entry of the descriptor.
  abbrev pub answer : ℕ → (Superblock → Vnode → ℕ × Option Cookie) → Vnode → Res × Client
  answer fd f vnode =
      let (e, cookie) = f (v.super vnode.v_sb) vnode in
      let entry : Ofile = record {
        o_vnode = vnode;
        o_cookie = cookie;
        area = r.r_area;
        offset = r.r_offset;
        length = r.r_length;
        o_pos = 0;
      } in
      (finished e (some fd), set_ofile fd (some entry) c)

  -- The outcomes of opening a file, each with what leads to it.
  pub data Opened (x : Res × Client) : Type 0 where
    no_fd : Taken c.ofile max_fds → x ≡ (failed emfile, c) → Opened x
    no_mount : (fd : ℕ) → FirstFree c fd → fs_find path v ≡ none → x ≡ (failed enoent, c) → Opened x
    no_operation :
        (fd super : ℕ)
        → FirstFree c fd
        → fs_find path v ≡ some super
        → (ops (v.super super).sb_vops).open_file ≡ none
        → x ≡ (failed enosys, c)
        → Opened x
    no_file :
        (fd super : ℕ) (f : Superblock → Vnode → ℕ × Option Cookie)
        → FirstFree c fd
        → Mount super f
        → walked super ≡ none
        → x ≡ (failed enoent, c)
        → Opened x
    opened :
        (fd super : ℕ) (f : Superblock → Vnode → ℕ × Option Cookie) (vnode : Vnode)
        → FirstFree c fd
        → Mount super f
        → walked super ≡ some vnode
        → x ≡ answer fd f vnode
        → Opened x

  walk_from-walked :
      (super : ℕ)
      → length (v.super super).sb_dir < length path
      → walk_from ops v super path ≡ some (walked super)
  unfolding walk_from text_from sb_ops
  walk_from-walked super more =
      let within : leb (length (v.super super).sb_dir + 1) (length path) ≡ true =
        ground (arith, more) in
      rw within refl

  open_in-Opened :
      (fd super : ℕ)
      → FirstFree c fd
      → fs_find path v ≡ some super
      → length (v.super super).sb_dir < length path
      → Returns Opened (open_in ops v r fd path c super)
  unfolding open_in sb_ops install new_ofile
  open_in-Opened fd super first is more =
      elim (Option-cases (ops (v.super super).sb_vops).open_file) [
        | inl missing ↦ rw (missing, open_in) (Opened.no_operation fd super first is missing refl)
        | inr (f, op) ↦
            rw (op, open_in, walk_from-walked super more)
              (let mount : Mount super f = record { found = is; opens = op } in
                elim (Option-cases (walked super)) [
                  | inl missing ↦ rw missing (Opened.no_file fd super f first mount missing refl)
                  | inr (vnode, there) ↦
                      rw there (Opened.opened fd super f vnode first mount there refl)
                ])
      ]

  -- `vfs_open` of a path that goes on after its mount's directory returns. The answer is EMFILE if all
  -- descriptors are in use; else ENOENT if no mount is found, ENOSYS if the mount's file system cannot open
  -- files, and ENOENT if its walk finds nothing, each with the client as it was; else what the file system's
  -- operation gives for the vnode that the walk finds, with the lowest free descriptor, whose entry alone is
  -- set, to the vnode and the cookie at position 0.
  pub vfs_open-Opened : WalksOn v path → Returns Opened (vfs_open ops v r path c)
  unfolding vfs_open
  vfs_open-Opened more =
      let (low, most, free) = free_fd-first c.ofile max_fds 0 (λ j h. omega (arith, h)) in
      let i = free_fd c.ofile max_fds 0 in
      elim (Bool-cases (i == max_fds)) [
        | inl full ↦ rw full (Opened.no_fd (λ j h. low j (ground (arith, full, h))) refl)
        | inr left ↦ rw left (
            let bound : i < max_fds = ground (arith, left, most) in
            let first : FirstFree c i = record { bound = bound; low = low; free = free bound } in
            elim (Option-cases (fs_find path v)) [
              | inl missing ↦ rw missing (Opened.no_mount i first missing refl)
              | inr (super, is) ↦ rw is (open_in-Opened i super first is (more super is))
            ])
      ]
