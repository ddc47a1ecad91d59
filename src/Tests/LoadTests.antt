-- ===== src/Tests/LoadTests.antt =====
-- A process of a machine without any, and the five of load_r3 behind a process "run"; a
-- block is 2,000 bytes behind the one before.
use mpx.Base.{
  ℕ, Bool, ◌||◌, ◌≡◌, ◌≢◌, ap, ◌+◌, ◌*◌, ◌<◌, ◌≤◌, refl, true, false, some, none, List, [], ◌∷◌,
  arith, ◌==◌, if◌then◌else◌, length,
}
use mpx.Base.Int.{pos}
use mpx.Base.Run.{Run, ok, Returns}
use mpx.Base.Text.{codes}
use mpx.Heap.{Heap}
use mpx.SysMem.{HeapFunctions, sys_alloc_mem}
use mpx.CString.Laws.{NoNul, c_string}
use mpx.Pcb.{Pcb, Queues}
use mpx.Pcb.Queue.{has}
use mpx.Pcb.Setup.{Processes}
use mpx.Pcb.Setup.Valid.{Named, Valid}
use mpx.Command.{zeros}
use mpx.Command.Load.Contexts.{call_it}
use mpx.Command.Load.{Machine, load_r3}
use mpx.Command.Load.All.{r3_jobs, load_r3-AllLoaded}
use mpx.Command.Load.Jobs.{CanLoad, call_it-fresh, AllLoaded}
use mpx.Tests.PollTests.{typing}

abbrev pub no_kmalloc : ℕ → Heap → Run (ℕ × Heap)
no_kmalloc size h = ok (0, h)

abbrev heap_at : ℕ → Heap
heap_at a = record { memlist = a; word = λ p. 0 }

-- The heap's start stands for its next block.
abbrev counting : HeapFunctions
counting = record {
  malloc_function = some (λ size h. ok (h.memlist, heap_at (h.memlist + 2000)));
  free_function = none;
}

abbrev unused : Pcb
unused = record {
  name = zeros 52;
  class = pos 0;
  priority = pos 0;
  state = pos 0;
  stack_top = 0;
  next_pcb = 0;
  prev_pcb = 0;
}

abbrev pub machine_of : Queues → Machine
machine_of k = record {
  session = record {
    queues = k;
    serial = record (typing [] []) { heap = heap_at 10000 };
    console = [];
    clock = λ r. 0;
    served = λ bytes after. after;
  };
  context = λ a. record {
    ds = 0;
    es = 0;
    fs = 0;
    gs = 0;
    ss = 0;
    eax = 0;
    ebx = 0;
    ecx = 0;
    edx = 0;
    esp = 0;
    ebp = 0;
    esi = 0;
    edi = 0;
    eip = 0;
    cs = 0;
    flags = 0;
  };
}

abbrev pub no_processes : Queues
no_processes = record { pcb = λ q. unused; ready_head = 0; blocked_head = 0; suspended_head = 0 }

zeros-length : length (zeros 52) ≡ 52
zeros-length = refl

abbrev blank_processes : Processes
blank_processes = record { queues = no_processes; heap = heap_at 10000; console = [] }

-- A machine with a ready process "sh" of the priority 3 at 500.
abbrev with_shell : Queues
with_shell = record {
  pcb = λ q.
      if q == 500
      then record unused {
        name = c_string (codes "sh") (zeros 49);
        class = pos 1;
        priority = pos 3;
        state = pos 1;
      }
      else unused;
  ready_head = 500;
  blocked_head = 0;
  suspended_head = 0;
}

with_shell-Named : Named with_shell (λ q. codes "sh") (500 ∷ []) []
with_shell-Named = record {
  ready_queue = record { linked = (refl, omega arith, refl); distinct = (refl, tt) };
  suspended_queue = record { linked = refl; distinct = tt };
  names = ((ground arith, (zeros 49, refl)), tt);
  apart = λ q i. absurd (ground arith);
}

r3_valid :
    (text : List ℕ) (i : ℕ)
    → NoNul text
    → 2 ≤ length text
    → length text ≤ 50
    → i ≤ 9
    → Valid text (pos 1) (pos i)
r3_valid text i plain long short low = record {
  plain = plain;
  long = long;
  short = short;
  class_ok = refl;
  priority_ok = ground arith;
}

abbrev names_0 : ℕ → List ℕ
names_0 q = codes "sh"

abbrev busy_0 : ℕ → Bool
busy_0 q = has q (500 ∷ [])

abbrev names_1 : ℕ → List ℕ
names_1 = call_it 10000 (codes "process1") names_0

abbrev busy_1 : ℕ → Bool
busy_1 q = q == 10000 || busy_0 q

abbrev names_2 : ℕ → List ℕ
names_2 = call_it 12000 (codes "process2") names_1

abbrev busy_2 : ℕ → Bool
busy_2 q = q == 12000 || busy_1 q

abbrev names_3 : ℕ → List ℕ
names_3 = call_it 14000 (codes "process3") names_2

abbrev busy_3 : ℕ → Bool
busy_3 q = q == 14000 || busy_2 q

abbrev names_4 : ℕ → List ℕ
names_4 = call_it 16000 (codes "process4") names_3

abbrev busy_4 : ℕ → Bool
busy_4 q = q == 16000 || busy_3 q

last_byte : List ℕ → ℕ
last_byte [] = 0
last_byte (c ∷ []) = c
last_byte (c ∷ d ∷ s) = last_byte (d ∷ s)

differ : (t t' : List ℕ) → last_byte t < last_byte t' → t ≢ t'
differ t t' h e = omega (arith, ap last_byte e)

fresh_1 : (q : ℕ) → busy_0 q ≡ true → names_0 q ≢ codes "process1"
unfolding last_byte
fresh_1 = λ q b e. cc

fresh_2 : (q : ℕ) → busy_1 q ≡ true → names_1 q ≢ codes "process2"
unfolding last_byte
fresh_2 =
    call_it-fresh 10000 (codes "process1") (codes "process2") names_0 busy_0
      (differ (codes "process1") (codes "process2") (omega arith)) (λ q b e. cc)

fresh_3 : (q : ℕ) → busy_2 q ≡ true → names_2 q ≢ codes "process3"
unfolding last_byte
fresh_3 =
    call_it-fresh 12000 (codes "process2") (codes "process3") names_1 busy_1
      (differ (codes "process2") (codes "process3") (omega arith))
      (call_it-fresh 10000 (codes "process1") (codes "process3") names_0 busy_0
        (differ (codes "process1") (codes "process3") (omega arith)) (λ q b e. cc))

fresh_4 : (q : ℕ) → busy_3 q ≡ true → names_3 q ≢ codes "process4"
unfolding last_byte
fresh_4 =
    call_it-fresh 14000 (codes "process3") (codes "process4") names_2 busy_2
      (differ (codes "process3") (codes "process4") (omega arith))
      (call_it-fresh 12000 (codes "process2") (codes "process4") names_1 busy_1
        (differ (codes "process2") (codes "process4") (omega arith))
        (call_it-fresh 10000 (codes "process1") (codes "process4") names_0 busy_0
          (differ (codes "process1") (codes "process4") (omega arith)) (λ q b e. cc)))

fresh_5 : (q : ℕ) → busy_4 q ≡ true → names_4 q ≢ codes "process5"
unfolding last_byte
fresh_5 =
    call_it-fresh 16000 (codes "process4") (codes "process5") names_3 busy_3
      (differ (codes "process4") (codes "process5") (omega arith))
      (call_it-fresh 14000 (codes "process3") (codes "process5") names_2 busy_2
        (differ (codes "process3") (codes "process5") (omega arith))
        (call_it-fresh 12000 (codes "process2") (codes "process5") names_1 busy_1
          (differ (codes "process2") (codes "process5") (omega arith))
          (call_it-fresh 10000 (codes "process1") (codes "process5") names_0 busy_0
            (differ (codes "process1") (codes "process5") (omega arith)) (λ q b e. cc))))

abbrev proc_at : ℕ → ℕ
proc_at i = 100 * i

abbrev block_at : ℕ → ℕ
block_at i = 8000 + 2000 * i

r3-CanLoad :
    CanLoad no_kmalloc counting
      (r3_jobs proc_at block_at (λ i. heap_at (10000 + 2000 * i)))
      (heap_at 10000)
      names_0
      busy_0
unfolding sys_alloc_mem
r3-CanLoad = (
  r3_valid (codes "process1") 1 (ground arith) (omega arith) (omega arith) (omega arith),
  fresh_1,
  refl,
  omega arith,
  refl,
  (
    r3_valid (codes "process2") 2 (ground arith) (omega arith) (omega arith) (omega arith),
    fresh_2,
    refl,
    omega arith,
    refl,
    (
      r3_valid (codes "process3") 3 (ground arith) (omega arith) (omega arith) (omega arith),
      fresh_3,
      refl,
      omega arith,
      refl,
      (
        r3_valid (codes "process4") 4 (ground arith) (omega arith) (omega arith) (omega arith),
        fresh_4,
        refl,
        omega arith,
        refl,
        (
          r3_valid (codes "process5") 5 (ground arith) (omega arith) (omega arith) (omega arith),
          fresh_5,
          refl,
          omega arith,
          refl,
          tt,
        ),
      ),
    ),
  ),
)

shell_room : (q : ℕ) → has q (500 ∷ []) ≡ false → 50 < length (with_shell.pcb q).name
shell_room q h = let other : (q == 500) ≡ false = ground arith in rw other (omega arith)

load_r3-AllLoaded_example :
    Returns
      (AllLoaded
        (r3_jobs proc_at block_at (λ i. heap_at (10000 + 2000 * i)))
        (500 ∷ [])
        []
        (machine_of with_shell))
      (load_r3 no_kmalloc counting 9 proc_at (machine_of with_shell))
load_r3-AllLoaded_example =
    load_r3-AllLoaded no_kmalloc counting 9 proc_at block_at (λ i. heap_at (10000 + 2000 * i))
      (machine_of with_shell) names_0 (500 ∷ []) r3-CanLoad with_shell-Named (tt, tt) shell_room
      (omega arith)
