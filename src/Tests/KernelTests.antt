-- ===== src/Tests/KernelTests.antt =====
-- The start of a kernel that ends at the address 4096, with 64 frames.
use mpx.Base.{◌≡◌, refl, false, none, [], ◌∷◌, arith}
use mpx.Base.Int.{pos}
use mpx.Base.Run.{Run, ok, ◌>>=◌, Returns}
use mpx.SysCall.{sys_call}
use mpx.SysCall.Idle.{IsRunning}
use mpx.Boot.Memory.{commhand_block, idle_block}
use mpx.Boot.Handover.{sys_call-Running}
use mpx.Interrupts.Handlers.{Processor}
use mpx.Boot.{Addresses, Kernel, log, kmain}
use mpx.Boot.Started.{SmallAddresses}
use mpx.Boot.Processes.{NoProcesses}
use mpx.Boot.Kmain.{FreeMemory}
use mpx.Boot.Running.{Running, kmain-Running}
use mpx.Tests.BootTests.{empty_gates}
use mpx.Tests.FrameTests.{start_paging}
use mpx.Tests.LoadTests.{machine_of, no_processes, no_kmalloc}
use mpx.Tests.PollTests.{typing}

abbrev symbols : Addresses
symbols = record {
  gdt_table = 5000;
  idt_entries = 6000;
  handler_of = λ fn. 1000;
  rtc_isr = 2000;
  sys_call_isr = 3000;
  serial_isr = 3100;
  commhand = 3200;
  sys_idle_process = 3300;
}

symbols-SmallAddresses : SmallAddresses symbols
symbols-SmallAddresses = record {
  small_handlers = λ fn. omega arith;
  small_rtc = omega arith;
  small_sys_call = omega arith;
  small_serial = omega arith;
}

abbrev reset_processor : Processor
reset_processor = record {
  gdt = record { size = 0; base = 0 };
  idt = record { size = 0; base = 0 };
  ds = 0;
  es = 0;
  fs = 0;
  gs = 0;
  ss = 0;
  enabled = false;
}

abbrev power_on : Kernel
power_on = record {
  processor = reset_processor;
  gates = empty_gates;
  paging = start_paging;
  functions = record { malloc_function = none; free_function = none };
  machine = record (machine_of no_processes) {
    session = record ((machine_of no_processes).session) {
      serial = record (typing (96 ∷ 255 ∷ []) []) { initialized = false ∷ [] };
    };
  };
}

start_paging-FreeMemory : FreeMemory 4096 64 start_paging
start_paging-FreeMemory = record {
  early = refl;
  kernel_end = refl;
  low = omega arith;
  high = omega arith;
  no_entries = λ a h. refl;
  frames_free = record { words = (refl, (refl, tt)); bits = refl };
  room = omega arith;
  bounded = omega arith;
  heap_start = refl;
}

abbrev halt : Kernel → Run Kernel
halt k = ok k

power_on-NoProcesses : NoProcesses no_processes
power_on-NoProcesses = record {
  no_ready = refl;
  no_suspended = refl;
  room_for_name = λ q. omega arith;
}

kmain-Running_example :
    (k' : Kernel) × Running symbols 4096 64 k'
    × (kmain no_kmalloc 1024 (λ p. (typing [] []).port) halt symbols power_on ≡ (
        halt k' >>= λ k₁.
        ok (log "Halting CPU..." (log "Starting system shutdown procedure..." k₁))))
kmain-Running_example =
    kmain-Running no_kmalloc 1024 (λ p. (typing [] []).port) halt symbols 4096 64 96 255 [] []
      power_on symbols-SmallAddresses refl refl start_paging-FreeMemory power_on-NoProcesses
      (omega arith)

-- The kernel at that request, and a call from the context at 40.
started :
    (k' : Kernel) × Running symbols 4096 64 k'
    × (kmain no_kmalloc 1024 (λ p. (typing [] []).port) halt symbols power_on ≡ (
        halt k' >>= λ k₁.
        ok (log "Halting CPU..." (log "Starting system shutdown procedure..." k₁))))
started =
    kmain-Running no_kmalloc 1024 (λ p. (typing [] []).port) halt symbols 4096 64 96 255 [] []
      power_on symbols-SmallAddresses refl refl start_paging-FreeMemory power_on-NoProcesses
      (omega arith)

abbrev at_request : Kernel
at_request = started.0

abbrev asking : mpx.SysCall.Kernel
asking = record {
  queues = at_request.machine.session.queues;
  serial = at_request.machine.session.serial;
  console = [];
  global_pcb = 0;
  initial_context = 0;
  context = λ c. record { eax = pos 1; ebx = 0; ecx = 0; edx = 0 };
}

sys_call-Running_example :
    Returns
      (λ (r, s').
        ((at_request.machine.context r).eip ≡ 3200)
        × IsRunning s' commhand_block (idle_block ∷ [])
        × (s'.initial_context ≡ 40))
      (sys_call no_kmalloc at_request.functions 3 40 asking)
sys_call-Running_example =
    sys_call-Running no_kmalloc at_request.functions 3 40 symbols 4096 64 at_request asking
      started.1 refl refl refl refl (omega arith)
