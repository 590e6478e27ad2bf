-- ===== src/Kernel/Port/Slaves.antt =====
-- Master and slave ports of blt/kernel/port.c: who holds a reference to whom.
use mathlib.Core.Path.{ap₂}
use os_open_blt.Base.{
  ℕ, ◌≡◌, ◌≢◌, refl, true, false, ◌&&◌, not, Returns, arith, ◌==◌, if◌then◌else◌, Bool-cases, inl,
  inr, ◌∙◌, ap, sym, Returns-bind, Returns-map, Returns-mono,
}
use os_open_blt.Base.Int.{ℤ, pos, negsuc, ◌+ℤ◌}
use os_open_blt.Kernel.State.{Kernel}
use os_open_blt.Kernel.Resource.{rsrc_find, rsrc_release}
use os_open_blt.Kernel.Resource.Release.{rsrc_release-Quiet}
use os_open_blt.Kernel.Port.{add_ref, change_master, port_slave, port_option, port_destroy, is_one}

-- What the choice of a master with the id `arg` adds to the reference count of the port at `a`, and what
-- the old master with the id `old` loses. The id 0 stands for no master.
abbrev pub gains : Kernel → ℕ → ℕ → ℤ
gains k arg a = if not (arg == 0) && (a == rsrc_find 3 arg k) then pos 1 else pos 0

abbrev pub loses : Kernel → ℕ → ℕ → ℤ
loses k old a = if not (old == 0) && (a == rsrc_find 3 old k) then negsuc 0 else pos 0

-- The port at `p` is the slave of `arg` now, and the reference counts follow.
pub record Enslaved (k : Kernel) (p arg : ℕ) (gain : ℕ → ℤ) (r : ℤ × Kernel) : Type 0 where
  pub reply : r.0 ≡ pos 0
  pub slaved : (r.1.port p).slaved ≡ arg
  pub counts :
      (a : ℕ) → (r.1.port a).refcount ≡ (k.port a).refcount +ℤ gain a +ℤ loses k (k.port p).slaved a
  pub others : (a : ℕ) → a ≢ p → (r.1.port a).slaved ≡ (k.port a).slaved

+ℤ-zero : (x : ℤ) → x +ℤ pos 0 ≡ x
+ℤ-zero x = ground arith

change_master-Enslaved :
    (k : Kernel) (p arg : ℕ)
    → ((k.port p).slaved ≢ 0 → rsrc_find 3 (k.port p).slaved k ≢ 0)
    → Returns (Enslaved k p arg (λ _. pos 0)) (change_master p arg k)
unfolding change_master
change_master-Enslaved k p arg old = elim (Bool-cases ((k.port p).slaved == 0)) [
  | inl free ↦ rw free (record {
    reply = refl;
    slaved = ground arith;
    counts = λ a. ground (arith, +ℤ-zero (k.port a).refcount);
    others = λ a ne. ground arith;
  })
  | inr slave ↦
      let there : (rsrc_find 3 (k.port p).slaved k == 0) ≡ false =
        ground (arith, old (ground arith)) in
      rw (slave, there)
        (record {
          reply = refl;
          slaved = ground arith;
          counts = λ a. ground (arith, +ℤ-zero (k.port a).refcount);
          others = λ a ne. ground arith;
        })
]

slaved-add_ref :
    (m : ℕ) (n : ℤ) (k : Kernel) (a : ℕ) → ((add_ref m n k).port a).slaved ≡ (k.port a).slaved
unfolding add_ref
slaved-add_ref m n k a = ground arith

refcount-add_ref :
    (m : ℕ) (n : ℤ) (k : Kernel) (a : ℕ)
    → ((add_ref m n k).port a).refcount
      ≡ (if a == m then (k.port a).refcount +ℤ n else (k.port a).refcount)
unfolding add_ref
refcount-add_ref m n k a = ground arith

find-add_ref :
    (m : ℕ) (n : ℤ) (k : Kernel) (t i : ℕ) → rsrc_find t i (add_ref m n k) ≡ rsrc_find t i k
unfolding add_ref rsrc_find
find-add_ref m n k t i = refl

module _ (k : Kernel) (p arg : ℕ) where
  one_more :
      (a : ℕ)
      → (if a == rsrc_find 3 arg k then (k.port a).refcount +ℤ pos 1 else (k.port a).refcount)
        ≡ (k.port a).refcount +ℤ (if a == rsrc_find 3 arg k then pos 1 else pos 0)
  one_more a = elim (Bool-cases (a == rsrc_find 3 arg k)) [
    | inl same ↦ rw same refl
    | inr other ↦ rw other (sym (+ℤ-zero (k.port a).refcount))
  ]

  loses-add_ref :
      (m : ℕ) (n : ℤ) (a : ℕ)
      → loses (add_ref m n k) ((add_ref m n k).port p).slaved a ≡ loses k (k.port p).slaved a
  loses-add_ref m n a = rw (slaved-add_ref m n k p) (
      ap (λ f. if not ((k.port p).slaved == 0) && (a == f) then negsuc 0 else pos 0)
        (find-add_ref m n k 3 (k.port p).slaved))

  -- A master that has gained its reference beforehand.
  gained :
      (arg == 0) ≡ false
      → (r : ℤ × Kernel) → Enslaved (add_ref (rsrc_find 3 arg k) (pos 1) k) p arg (λ _. pos 0) r
      → Enslaved k p arg (gains k arg) r
  gained some_master r e =
      let m = rsrc_find 3 arg k in
      record {
        reply = e.reply;
        slaved = e.slaved;
        counts = λ a.
            e.counts a
            ∙ ap₂ ◌+ℤ◌
                (+ℤ-zero ((add_ref m (pos 1) k).port a).refcount
                  ∙ refcount-add_ref m (pos 1) k a
                  ∙ rw some_master (one_more a))
                (loses-add_ref m (pos 1) a);
        others = λ a ne. e.others a ne ∙ slaved-add_ref m (pos 1) k a;
      }

  port_slave-Enslaved :
      (arg ≢ 0 → rsrc_find 3 arg k ≢ 0)
      → (arg ≢ 0 → (k.rsrc (rsrc_find 3 arg k)).owner ≡ (k.rsrc k.current).owner)
      → ((k.port p).slaved ≢ 0 → rsrc_find 3 (k.port p).slaved k ≢ 0)
      → Returns (Enslaved k p arg (gains k arg)) (port_slave p arg k)
  unfolding port_slave
  port_slave-Enslaved there owned old = elim (Bool-cases (arg == 0)) [
    | inl nobody ↦ rw nobody (
        Returns-mono (change_master p arg k)
          (λ r e. record {
            reply = e.reply;
            slaved = e.slaved;
            counts = λ a. rw nobody (e.counts a);
            others = e.others;
          })
          (change_master-Enslaved k p arg old))
    | inr some_master ↦
        let m = rsrc_find 3 arg k in
        let ne : arg ≢ 0 = ground arith in
        let found : (m == 0) ≡ false = ground (arith, there ne) in
        let ours : ((k.rsrc m).owner == (k.rsrc k.current).owner) ≡ true =
          ground (arith, owned ne) in
        let k1 = add_ref m (pos 1) k in
        rw (some_master, found, ours)
          (Returns-mono (change_master p arg k1) (gained some_master)
            (change_master-Enslaved k1 p arg (rw (slaved-add_ref m (pos 1) k p, find-add_ref) old)))
  ]

-- `port_option` with SLAVE, on a port of the caller's owner: a master that is found and has that owner
-- too, or none, is set; the new master gains a reference and the old one loses its own.
pub port_option-Enslaved :
    (k : Kernel) (id arg p : ℕ)
    → rsrc_find 3 id k ≡ p
    → p ≢ 0
    → (k.rsrc p).owner ≡ (k.rsrc k.current).owner
    → (arg ≢ 0 → rsrc_find 3 arg k ≢ 0)
    → (arg ≢ 0 → (k.rsrc (rsrc_find 3 arg k)).owner ≡ (k.rsrc k.current).owner)
    → ((k.port p).slaved ≢ 0 → rsrc_find 3 (k.port p).slaved k ≢ 0)
    → Returns (Enslaved k p arg (gains k arg)) (port_option id 4 arg k)
unfolding port_option
port_option-Enslaved k id arg p found real owner there owned old =
    let real' : (p == 0) ≡ false = ground arith in
    let owner' : ((k.rsrc p).owner == (k.rsrc k.current).owner) ≡ true = ground arith in
    rw (found, real', owner') (port_slave-Enslaved k p arg there owned old)

-- `port_destroy` ends and leaves every reference count, mode and message of every port as it was: the
-- master of a slave that is destroyed keeps the reference to it. No queue in question is the run queue.
pub port_destroy-counts :
    (k : Kernel) (id : ℕ)
    → rsrc_find 3 id k ≢ k.run_queue
    → (k.port (rsrc_find 3 id k)).sendqueue ≢ k.run_queue
    → Returns (λ r. r.1.port ≡ k.port) (port_destroy id k)
unfolding port_destroy
port_destroy-counts k id np nq =
    let p = rsrc_find 3 id k in
    let q = (k.port p).sendqueue in
    elim (Bool-cases (p == 0)) [
      | inl missing ↦ rw missing refl
      | inr found ↦ elim (Bool-cases (is_one (k.port p).refcount)) [
        | inr shared ↦ rw (found, shared) refl
        | inl alone ↦
            rw (found, alone)
              (Returns-bind (rsrc_release p k) (λ (r : ℤ × Kernel). r.1.port ≡ k.port) _
                (λ k1 first.
                  Returns-map (rsrc_release q k1) (λ (r : ℤ × Kernel). r.1.port ≡ k.port)
                    (λ k2. (pos 0, k2)) (λ k2 second. second.port ∙ first.port)
                    (rsrc_release-Quiet k1 q (λ e. nq (e ∙ first.run_queue))))
                (rsrc_release-Quiet k p np))
      ]
    ]
