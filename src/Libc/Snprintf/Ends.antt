-- ===== src/Libc/Snprintf/Ends.antt =====
-- The end of the loop of blt/lib/libc/snprintf.c.
use os_open_blt.Base.{
  ℕ, ◌+◌, ◌-◌, ◌≤◌, ◌≡◌, Bool, true, false, ◌&&◌, ◌||◌, not, Option, none, some, List, [], ◌∷◌,
  ◌++◌, ◌==◌, if◌then◌else◌, length, arith, Option-cases, inl, inr, Returns, Returns-test,
  Returns-map, Returns-bind, IfReturns,
}
use os_open_blt.Libc.Snprintf.{Arg, Printer, directive, lengthen, print_loop, va_snprintf}
use os_open_blt.Libc.Snprintf.Bounds.{va_snprintf-Fits}
use os_open_blt.Libc.Snprintf.Reads.{takes, clears, directive-Went}

-- The format does not end within a directive, and every argument that its directives read is there and of
-- the kind that is read. The first three arguments are where in the format, and the modifiers.
abbrev pub answered : Bool → List ℕ → Bool → Bool → List Arg → Bool
answered false [] l ll args = true
answered true [] l ll args = false
answered false (x ∷ fmt) l ll args =
    let within = answered true fmt l ll args in
    let next = answered false fmt l ll args in if x == b'%' then within else next
answered true (x ∷ fmt) l ll args =
    let again = answered true fmt (not l || ll) (l || ll) args in
    let next : List Arg → Bool = answered false fmt (l && not (clears x)) (ll && not (clears x)) in
    if x == b'l' then again else elim (takes x ll args) [ none ↦ false | some rest ↦ next rest ]

-- There is a result.
abbrev Some : {A : Type 0} → Option A → Type 0
Some o = Returns (λ a. Unit {0}) o

print_loop-full : (fmt : List ℕ) (p : Printer) → p.l ≡ 0 → Some (print_loop false fmt p)
unfolding print_loop
print_loop-full [] p full = tt
print_loop-full (x ∷ fmt) p full =
    let no_room : (p.l == 0) ≡ true = ground (arith, full) in rw no_room tt

lengthen-l :
    (p : Printer)
    → ((lengthen p).mod_l ≡ (not p.mod_l || p.mod_ll))
      × ((lengthen p).mod_ll ≡ (p.mod_l || p.mod_ll))
      × ((lengthen p).pvar ≡ p.pvar)
unfolding lengthen
lengthen-l p = ground arith

print_loop-Some :
    (within : Bool) (fmt : List ℕ) (p : Printer)
    → answered within fmt p.mod_l p.mod_ll p.pvar ≡ true
    → Some (print_loop within fmt p)
unfolding print_loop
print_loop-Some false [] p all = tt
print_loop-Some true [] p all = ground (arith, all)
print_loop-Some false (x ∷ fmt) p all =
    Returns-test _ (p.l == 0) _ _ (λ full. tt)
      (λ room.
        Returns-test _ (x == b'%') _ _
          (λ percent.
            Returns-test _ (p.l - 1 == 0) _ _ (λ last. tt)
              (λ more. print_loop-Some true fmt (record p { l = p.l - 1 }) (rw percent at all)))
          (λ plain.
            print_loop-Some false fmt (record p { written = p.written ++ x ∷ []; l = p.l - 1 })
              (rw plain at all)))
print_loop-Some true (x ∷ fmt) p all =
    Returns-test _ (x == b'l') _ _
      (λ long.
        let (a, b, c) = lengthen-l p in
        print_loop-Some true fmt (lengthen p) (rw (a, b, c) (rw long at all)))
      (λ other. elim (Option-cases (takes x p.mod_ll p.pvar)) [
        | inl missing ↦ ground (arith, rw (other, missing) at all)
        | inr (rest, there) ↦
            Returns-bind (directive x p) _ (print_loop false fmt)
              (λ q went. elim went [
                | inl full ↦ print_loop-full fmt q full
                | inr left ↦
                    print_loop-Some false fmt q
                      (rw (left.mod_l, left.mod_ll, left.pvar) (rw (other, there) at all))
              ])
              (directive-Went x rest p there)
      ])

both : {A : Type 0} (P : A → Type 0) (o : Option A) → Some o → IfReturns P o → Returns P o
both P none there fits = there
both P (some a) there fits = fits

-- Where the format does not end within a directive, and its directives find the arguments they read,
-- `va_snprintf` ends, and what it writes, the 0 at the end counted, is one byte more than `l` at most.
pub va_snprintf-bounded :
    (l : ℕ) (fmt : List ℕ) (pvar : List Arg)
    → answered false fmt false false pvar ≡ true
    → Returns (λ out. length out ≤ l + 1) (va_snprintf l fmt pvar)
unfolding va_snprintf
va_snprintf-bounded l fmt pvar all =
    both (λ out. length out ≤ l + 1) (va_snprintf l fmt pvar)
      (Returns-test _ (l == 0) _ _ (λ none_left. tt)
        (λ room.
          Returns-map (print_loop false fmt _) _ _ (λ p ends. tt)
            (print_loop-Some false fmt
              (record { written = []; l = l; mod_l = false; mod_ll = false; pvar = pvar }) all)))
      (va_snprintf-Fits l fmt pvar)
