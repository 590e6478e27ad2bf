-- ===== src/Kernel/State.antt =====
-- The state that blt/kernel/resource.c, task.c, kernel.c (the scheduler), sem.c and port.c share. An
-- object is named by its address, and each kind of object is a function from addresses; a task, a
-- semaphore or a port has the address of the `resource_t` that it begins with. NULL is 0. A `list_t`
-- is the list of the items that it holds, as Kernel.NodeList shows of its operations.
use os_open_blt.Base.{ℕ, List, update}
use os_open_blt.Base.Int.{ℤ}

-- `rsrc_type` of resource.h.
pub data RsrcType : Type 0 where
  rsrc_none rsrc_task rsrc_aspace rsrc_port rsrc_sem rsrc_right rsrc_area rsrc_queue rsrc_team :
      RsrcType

-- The enumerators' numbers.
abbrev pub type_code : RsrcType → ℕ
type_code rsrc_none = 0
type_code rsrc_task = 1
type_code rsrc_aspace = 2
type_code rsrc_port = 3
type_code rsrc_sem = 4
type_code rsrc_right = 5
type_code rsrc_area = 6
type_code rsrc_queue = 7
type_code rsrc_team = 8

pub record Rsrc : Type 0 where
  pub id : ℕ
  pub type : RsrcType
  pub owner : ℕ
  pub rights : List ℕ
  pub queue : List ℕ
  pub name : List ℕ

-- The flags of task.h.
pub data Flags : Type 0 where
  t_kernel t_running t_ready t_dead t_waiting t_sleep_irq t_sleep_timer t_sleep_paging : Flags

-- The fields of `task_t` that the scheduler and the queues use.
pub record Task : Type 0 where
  pub waiting_on : ℕ
  pub status : ℤ
  pub wait_time : ℕ
  pub flags : Flags
  pub scount : ℕ

pub record Message : Type 0 where
  pub code : ℕ
  pub from_port : ℕ
  pub to_port : ℕ
  pub payload : List ℕ

-- `first` and `last` are the ends of `messages`; a slave port names its master in `slaved`.
pub record Port : Type 0 where
  pub msgcount : ℕ
  pub slaved : ℕ
  pub messages : List Message
  pub refcount : ℤ
  pub nowait : ℕ
  pub restrict : ℕ
  pub sendqueue : ℕ

pub record Kernel : Type 0 where
  pub null_resource : ℕ
  pub rmap_resource : ℕ → ℕ
  pub rmap_next : ℕ → ℕ
  pub rmax : ℕ
  pub rfree : ℕ
  pub resource_list : List ℕ
  pub rsrc : ℕ → Rsrc
  pub team_resources : ℕ → List ℕ
  pub task : ℕ → Task
  pub current : ℕ
  pub idle_task : ℕ
  pub run_queue : ℕ
  pub live_tasks : ℕ
  pub sem_count : ℕ → ℤ
  pub port : ℕ → Port

unfoldable pub set_rsrc : ℕ → Rsrc → Kernel → Kernel
unfolding update
set_rsrc a r k = record k { rsrc = update k.rsrc a r }

unfoldable pub set_task : ℕ → Task → Kernel → Kernel
unfolding update
set_task a t k = record k { task = update k.task a t }

unfoldable pub set_port : ℕ → Port → Kernel → Kernel
unfolding update
set_port a p k = record k { port = update k.port a p }

unfoldable pub set_queue : ℕ → List ℕ → Kernel → Kernel
unfolding set_rsrc
set_queue a q k = set_rsrc a (record (k.rsrc a) { queue = q }) k
