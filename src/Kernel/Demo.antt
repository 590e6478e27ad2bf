-- ===== src/Kernel/Demo.antt =====
-- A small kernel for the tests: a semaphore at 100 with one waiter, a port at 200 with its send queue at
-- 201, the run queue at 300 with one task, and three free ids.
use os_open_blt.Base.{ℕ, refl, ◌==◌, if◌then◌else◌, List, [], ◌∷◌, arith}
use os_open_blt.Base.Int.{pos, negsuc}
use os_open_blt.Kernel.State.{
  Kernel, Rsrc, RsrcType, rsrc_none, rsrc_sem, rsrc_port, rsrc_queue, Task, t_running, t_waiting,
  Port, Message,
}
use os_open_blt.Kernel.Resource.{rsrc_find}
use os_open_blt.Kernel.Resource.Table.{TableOk}
use os_open_blt.Kernel.Resource.Queues.{QueuesOk}
use os_open_blt.Kernel.Sched.Switch.{Live}
use os_open_blt.Kernel.Sem.Counts.{IsSem}
use os_open_blt.Kernel.Port.Bounds.{PortOk}

abbrev a_rsrc : ℕ → RsrcType → List ℕ → Rsrc
a_rsrc id type queue = record {
  id = id;
  type = type;
  owner = 0;
  rights = [];
  queue = queue;
  name = [];
}

abbrev rsrc_at : ℕ → Rsrc
rsrc_at a =
    if a == 100
    then a_rsrc 1 rsrc_sem (13 ∷ [])
    else if a == 200
    then a_rsrc 2 rsrc_port []
    else if a == 300
    then a_rsrc 3 rsrc_queue (12 ∷ [])
    else if a == 201
    then a_rsrc 4 rsrc_queue []
    else a_rsrc 0 rsrc_none []

abbrev task_at : ℕ → Task
task_at t =
    if t == 13
    then record { waiting_on = 100; status = pos 0; wait_time = 0; flags = t_waiting; scount = 0 }
    else if t == 12
    then record { waiting_on = 300; status = pos 0; wait_time = 0; flags = t_waiting; scount = 0 }
    else record { waiting_on = 0; status = pos 0; wait_time = 0; flags = t_running; scount = 0 }

abbrev pub a_message : Message
a_message = record { code = 7; from_port = 2; to_port = 2; payload = 1 ∷ 2 ∷ 3 ∷ [] }

abbrev an_empty_port : Port
an_empty_port = record {
  msgcount = 0;
  slaved = 0;
  messages = [];
  refcount = pos 1;
  nowait = 0;
  restrict = 0;
  sendqueue = 201;
}

abbrev pub demo : Kernel
demo = record {
  null_resource = 500;
  rmap_resource = λ i.
      if i == 1
      then 100
      else if i == 2
      then 200
      else if i == 3
      then 300
      else if i == 4
      then 201
      else 500;
  rmap_next = λ i. if i == 5 then 6 else if i == 6 then 7 else 0;
  rmax = 8;
  rfree = 5;
  resource_list = 100 ∷ 200 ∷ 300 ∷ 201 ∷ [];
  rsrc = rsrc_at;
  team_resources = λ _. [];
  task = task_at;
  current = 10;
  idle_task = 11;
  run_queue = 300;
  live_tasks = 3;
  sem_count = λ a. if a == 100 then negsuc 0 else pos 0;
  port = λ a. an_empty_port;
}

abbrev pub demo_free : List ℕ
demo_free = 5 ∷ 6 ∷ 7 ∷ []

pub demo-TableOk : TableOk demo demo_free
demo-TableOk = record {
  chain = (refl, omega arith, (refl, omega arith, (refl, omega arith, refl)));
  distinct = (refl, (refl, (refl, tt)));
  below = λ i m. ground arith;
  vacant = λ i m. ground arith;
  zeroth = refl;
  null_type = refl;
  known = λ i low nz out. ground arith;
}

pub demo-QueuesOk : QueuesOk demo
demo-QueuesOk = record { distinct = λ r. ground arith; waits = λ r t m. ground arith }

pub demo-Live : Live demo
demo-Live = record { some_task = omega arith; idle = λ e. cc; no_null = refl }

pub demo-IsSem : IsSem demo 1 100
unfolding rsrc_find
demo-IsSem = record { found = refl; real = omega arith; apart = omega arith }

pub demo-PortOk : (a : ℕ) → PortOk demo a
demo-PortOk a = record { counted = refl; bounded = omega arith }

-- The same kernel with one message at the port.
abbrev pub demo_mail : Kernel
demo_mail = record demo {
  port = λ a. record an_empty_port { msgcount = 1; messages = a_message ∷ [] };
}

pub demo_mail-PortOk : (a : ℕ) → PortOk demo_mail a
demo_mail-PortOk a = record { counted = refl; bounded = omega arith }
