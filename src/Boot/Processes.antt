-- ===== src/Boot/Processes.antt =====
-- The two processes of kmain, from a kernel without any.
use mathlib.Core.Path.{subst}
use mpx.Base.{ℕ, ◌<◌, ◌≡◌, ◌≢◌, refl, ◌∙◌, true, false, List, [], ◌∷◌, arith, length}
use mpx.Base.Int.{pos, ◌<ℤ◌}
use mpx.Base.Run.{Run}
use mpx.Base.Text.{codes}
use mpx.Heap.{Heap, allocate_memory, free_memory}
use mpx.SysMem.{HeapFunctions, sys_set_heap_functions}
use mpx.Pcb.{Queues, ready}
use mpx.Pcb.Queue.{has, IsQueue, rank}
use mpx.Pcb.Setup.Valid.{Named, Valid}
use mpx.Command.Load.{Machine}
use mpx.Command.Load.Contexts.{blocks}
use mpx.Command.Load.Jobs.{AllLoaded, CanLoad, call_it-fresh}
use mpx.Boot.{Addresses}
use mpx.Boot.First.{first_jobs}
use mpx.Boot.Memory.{commhand_block, idle_block, BootHeaps, two_in_order}
use mpx.Boot.Kmain.{sys_alloc_mem-set}

-- no process is in a queue, and each block has room for a name
pub record NoProcesses (k : Queues) : Type 0 where
  pub no_ready : k.ready_head ≡ 0
  pub no_suspended : k.suspended_head ≡ 0
  pub room_for_name : (q : ℕ) → 50 < length (k.pcb q).name

pub commhand_valid : Valid (codes "Command Handler") (pos 0) (pos 1)
commhand_valid = record {
  plain = ground arith;
  long = omega arith;
  short = omega arith;
  class_ok = refl;
  priority_ok = refl;
}

pub idle_valid : Valid (codes "Idle Process") (pos 0) (pos 9)
idle_valid = record {
  plain = ground arith;
  long = omega arith;
  short = omega arith;
  class_ok = refl;
  priority_ok = refl;
}

nobody : (q : ℕ) → false ≡ true → (t : List ℕ) → [] ≢ t
nobody q b t = absurd (ground arith)

-- The two processes can be made, of names that are new, where the heap gives two blocks.
pub boot-CanLoad :
    (kmalloc : ℕ → Heap → Run (ℕ × Heap)) (fuel : ℕ) (a : Addresses) (h : Heap)
    (hs : BootHeaps fuel h) (functions : HeapFunctions)
    → functions ≡ sys_set_heap_functions (allocate_memory fuel) (free_memory fuel)
    → CanLoad kmalloc functions
        (first_jobs a.commhand a.sys_idle_process commhand_block idle_block hs.commhand_heap
          hs.idle_heap)
        hs.port_heap
        (λ q. [])
        (λ q. has q [])
boot-CanLoad kmalloc fuel a h hs functions set = (
  commhand_valid,
  λ q b. nobody q b (codes "Command Handler"),
  sys_alloc_mem-set kmalloc fuel 1100 hs.port_heap functions set ∙ hs.commhand_given,
  omega arith,
  refl,
  (
    idle_valid,
    call_it-fresh commhand_block (codes "Command Handler") (codes "Idle Process") (λ q. [])
        (λ q. has q []) (λ e. cc) (λ q b. nobody q b (codes "Idle Process")),
    sys_alloc_mem-set kmalloc fuel 1100 hs.commhand_heap functions set ∙ hs.idle_given,
    omega arith,
    refl,
    tt,
  ),
)

pub NoProcesses-Named : (k : Queues) → NoProcesses k → Named k (λ q. []) [] []
NoProcesses-Named k none_yet = record {
  ready_queue = record { linked = none_yet.no_ready; distinct = tt };
  suspended_queue = record { linked = none_yet.no_suspended; distinct = tt };
  names = tt;
  apart = λ q i. refl;
}

-- The ready queue once both are made.
pub first_jobs-IsQueue :
    (a : Addresses) (h h' : Heap) (m m' : Machine)
    → AllLoaded (first_jobs a.commhand a.sys_idle_process commhand_block idle_block h h') [] [] m m'
    → IsQueue ready m'.session.queues (commhand_block ∷ idle_block ∷ [])
first_jobs-IsQueue a h h' m m' l =
    let (c, (i, _)) = l.processes in
    let order : rank (blocks m') commhand_block <ℤ rank (blocks m') idle_block =
      ground (arith, c.priority_at, i.priority_at) in
    subst (IsQueue ready m'.session.queues)
      (two_in_order (rank (blocks m')) commhand_block idle_block l.queue (omega arith) order
        (λ q. ground (arith, l.members q)) l.named.ready_queue.distinct l.sorted)
      l.named.ready_queue
