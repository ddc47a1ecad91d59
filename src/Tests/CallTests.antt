-- ===== src/Tests/CallTests.antt =====
-- Process 4 runs, 5 and 6 are ready, all of priority 2. Context 70 makes the IDLE call.
use mpx.Base.{ℕ, ◌≡◌, List, refl, true, [], ◌∷◌, arith, if◌then◌else◌, ◌==◌, ◌+◌, some, none}
use mpx.Base.Int.{pos}
use mpx.Base.Run.{Run, ok, fault, Returns}
use mpx.Pcb.{Pcb}
use mpx.Pcb.Queue.{rank}
use mpx.Serial.{Serial, available, idle}
use mpx.Heap.{Heap, allocate_memory, free_memory}
use mpx.Heap.Blocks.{Block, IsHeap}
use mpx.SysMem.{HeapFunctions}
use mpx.SysCall.{Kernel, sys_call}
use mpx.SysCall.Idle.{IsRunning, Switched, sys_call-Switched}
use mpx.SysCall.Write.{taken, scheduled, sys_call-write}
use mpx.Serial.Requests.{io_scheduler}
use mpx.SysCall.Exit.{sys_call-exit_faults}
use mpx.SysCall.Fair.{OfPriority, idle_calls, idle_calls-turn}

abbrev worker : ℕ → Pcb
worker next = record {
  name = [];
  class = pos 1;
  priority = pos 2;
  state = pos 1;
  stack_top = 500;
  next_pcb = next;
  prev_pcb = 0;
}

abbrev quiet_port : Serial
quiet_port = record {
  port = record {
    curr_dev = 0x3f8;
    status = available;
    operation = idle;
    event_flag = 0;
    counter = 0;
    count = pos 0;
    ring_buffer = [];
    ring_head = 0;
    ring_tail = 15;
    io_head = 0;
  };
  initialized = true ∷ [];
  iocb =
      λ p. record { curr_proc = 0; device = 0; curr_op = idle; buffer = 0; buf_size = 0; next = 0 };
  bytes = λ p. 0;
  heap = record { memlist = 100; word = λ a. if a == 100 then 67 else 0 };
  inputs = [];
  outputs = [];
}

abbrev two_waiting : Kernel
two_waiting = record {
  queues = record {
    pcb = λ p. worker (if p == 5 then 6 else 0);
    ready_head = 5;
    blocked_head = 0;
    suspended_head = 0;
  };
  serial = quiet_port;
  console = [];
  global_pcb = 4;
  initial_context = 40;
  context = λ c. record { eax = pos 1; ebx = 0; ecx = 0; edx = 0 };
}

abbrev no_kmalloc : ℕ → Heap → Run (ℕ × Heap)
no_kmalloc size h = ok (0, h)

abbrev heap_functions : HeapFunctions
heap_functions = record {
  malloc_function = some (allocate_memory 9);
  free_function = some (free_memory 9);
}

two_waiting-IsRunning : IsRunning two_waiting 4 (5 ∷ 6 ∷ [])
two_waiting-IsRunning = record {
  running = refl;
  nonnull = omega arith;
  queue = record {
    linked = (refl, omega arith, (refl, omega arith, refl));
    distinct = (refl, (refl, tt));
  };
  apart = refl;
  states = λ q h. refl;
}

same_priority : OfPriority (pos 2) (rank two_waiting.queues.pcb) (4 ∷ 5 ∷ 6 ∷ [])
unfolding OfPriority
same_priority q h = refl

sys_call-Switched_example :
    Returns
      (Switched 70 4 5 (6 ∷ []) two_waiting)
      (sys_call no_kmalloc heap_functions 4 70 two_waiting)
sys_call-Switched_example =
    sys_call-Switched no_kmalloc heap_functions 4 70 4 5 (6 ∷ []) two_waiting refl
      two_waiting-IsRunning refl (omega arith)

idle_calls-turn_example :
    Returns
      (λ t. IsRunning t 6 (4 ∷ 5 ∷ []))
      (idle_calls no_kmalloc heap_functions 4 (70 ∷ 80 ∷ []) two_waiting)
idle_calls-turn_example =
    idle_calls-turn no_kmalloc heap_functions 4 (pos 2) (70 ∷ 80 ∷ []) two_waiting 4 6 (5 ∷ []) []
      two_waiting-IsRunning same_priority (λ c h. refl) refl refl (omega arith)

-- Process 4, called "a", makes the EXIT call.
abbrev leaving : Kernel
leaving = record two_waiting {
  queues = record {
    pcb = λ p. record (worker (if p == 5 then 6 else 0)) { name = 97 ∷ 0 ∷ [] };
    ready_head = 5;
    blocked_head = 0;
    suspended_head = 0;
  };
  context = λ c. record { eax = pos 0; ebx = 0; ecx = 0; edx = 0 };
}

leaving-IsRunning : IsRunning leaving 4 (5 ∷ 6 ∷ [])
leaving-IsRunning = record {
  running = refl;
  nonnull = omega arith;
  queue = record {
    linked = (refl, omega arith, (refl, omega arith, refl));
    distinct = (refl, (refl, tt));
  };
  apart = refl;
  states = λ q h. refl;
}

abbrev free_block : List Block
free_block = record { size = 64; free = true } ∷ []

free_block-IsHeap : IsHeap leaving.serial.heap free_block
free_block-IsHeap = record {
  chain = (refl, tt);
  fits = (omega arith, refl, omega arith);
  inhabited = refl;
}

sys_call-exit_faults_example : sys_call no_kmalloc heap_functions 9 70 leaving ≡ fault
sys_call-exit_faults_example =
    sys_call-exit_faults no_kmalloc heap_functions 9 70 4 97 (5 ∷ 6 ∷ []) (0 ∷ []) free_block
      leaving leaving-IsRunning refl (omega arith) refl free_block-IsHeap (omega arith) refl
      (omega arith)

-- Process 4 makes the first WRITE call, of the two bytes at 300.
abbrev next_block : ℕ → Heap → Run (ℕ × Heap)
next_block size h = ok (h.memlist, record h { memlist = h.memlist + size })

abbrev no_functions : HeapFunctions
no_functions = record { malloc_function = none; free_function = none }

abbrev calling : Kernel
calling = record two_waiting {
  serial = record quiet_port { inputs = 3 ∷ [] };
  context = λ c. record { eax = pos 3; ebx = 0x3f8; ecx = 300; edx = 2 };
}

calling-IsRunning : IsRunning calling 4 (5 ∷ 6 ∷ [])
calling-IsRunning = record {
  running = refl;
  nonnull = omega arith;
  queue = record {
    linked = (refl, omega arith, (refl, omega arith, refl));
    distinct = (refl, (refl, tt));
  };
  apart = refl;
  states = λ q h. refl;
}

abbrev port_of : Run Serial → Serial
port_of (ok port) = port
port_of _ = quiet_port

abbrev written : Serial
written = port_of (scheduled next_block no_functions 4 70 4 calling calling.serial)

abbrev written_twice : Serial
written_twice = port_of (scheduled next_block no_functions 4 70 4 calling written)

first_scheduled : scheduled next_block no_functions 4 70 4 calling calling.serial ≡ ok written
unfolding io_scheduler
first_scheduled = refl

second_scheduled : scheduled next_block no_functions 4 70 4 calling written ≡ ok written_twice
unfolding io_scheduler
second_scheduled = refl

sys_call-write_example :
    Returns
      (Switched 70 4 5 (6 ∷ []) (taken 70 4 5 (6 ∷ []) written_twice calling))
      (sys_call next_block no_functions 4 70 calling)
sys_call-write_example =
    sys_call-write next_block no_functions 3 70 4 5 (6 ∷ []) written written_twice calling refl
      calling-IsRunning refl refl first_scheduled second_scheduled (omega arith)
