-- ===== src/Kernel/Resource/Tests.antt =====
-- The theorems about blt/kernel/resource.c at the small kernel.
use os_open_blt.Base.{refl, Returns, [], ◌∷◌, arith}
use os_open_blt.Kernel.State.{rsrc_sem}
use os_open_blt.Kernel.Resource.{rsrc_bind, rsrc_release}
use os_open_blt.Kernel.Resource.Table.{Bound, rsrc_bind-Bound}
use os_open_blt.Kernel.Resource.Release.{Released, rsrc_release-Released}
use os_open_blt.Kernel.Demo.{demo, demo_free, demo-TableOk}

rsrc_bind-Bound_example :
    Returns (Bound demo 400 rsrc_sem 5 (6 ∷ 7 ∷ [])) (rsrc_bind 400 rsrc_sem 0 demo)
rsrc_bind-Bound_example =
    rsrc_bind-Bound demo 400 rsrc_sem 0 5 (6 ∷ 7 ∷ []) demo-TableOk (λ e. cc)
      (record { not_null = omega arith; absent = λ i low. ground arith })

rsrc_release-Released_example : Returns (Released demo 100 1 demo_free) (rsrc_release 100 demo)
rsrc_release-Released_example =
    rsrc_release-Released demo 100 1 demo_free demo-TableOk
      (record {
        low = omega arith;
        nonzero = omega arith;
        taken = refl;
        entry = refl;
        not_null = omega arith;
      })
      (omega arith)
