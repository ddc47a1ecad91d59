-- ===== src/Boot.antt =====
-- kernel/kmain.c: klogv, and `kmain` in its parts. The early `kmalloc` keeps its own state in
-- `paging`; the request IDLE at the end is a function that the caller gives.
pub mod Log
pub mod First
pub mod Ports
pub mod Memory
pub mod Started
pub mod Kmain
pub mod Processes
pub mod Running
pub mod Handover
use Prim.Native.String.{String}
use mpx.Base.{ℕ, true, false, List, [], ◌∷◌, ◌==◌, if◌then◌else◌}
use mpx.Base.Int.{pos}
use mpx.Base.Run.{Run, ok, fault, ◌>>=◌}
use mpx.Base.Text.{codes, with_nul}
use mpx.Heap.{Heap, header_bytes, add_size, roundup, initialize_heap, allocate_memory, free_memory}
use mpx.SysMem.{HeapFunctions, sys_set_heap_functions, sys_alloc_mem}
use mpx.Serial.{Serial, Dcb, com1, serial_init, serial_open, serial_out}
use mpx.Interrupts.{Gate, idt_install, irq_init, pic_init}
use mpx.Interrupts.Handlers.{Processor, Exception, reserved, gdt_init, idt_init, cli, sti, isr_at}
use mpx.Vm.{Paging, kmalloc}
use mpx.Vm.Init.{vm_init}
use mpx.Command.Load.{Machine, load}

unfoldable pub klogv : (dev : ℕ) → String → Serial → Serial
unfolding serial_out
klogv dev msg s =
    let (_, s₁) = serial_out dev (codes "klogv: ") s in
    let (_, s₂) = serial_out dev (codes msg) s₁ in
    let (_, s₃) = serial_out dev (13 ∷ 10 ∷ []) s₂ in s₃

-- the addresses that the linker gives
pub record Addresses : Type 0 where
  pub gdt_table : ℕ
  pub idt_entries : ℕ
  pub handler_of : Exception → ℕ
  pub rtc_isr : ℕ
  pub sys_call_isr : ℕ
  pub serial_isr : ℕ
  pub commhand : ℕ
  pub sys_idle_process : ℕ

pub record Kernel : Type 0 where
  pub processor : Processor
  pub gates : ℕ → Gate
  pub paging : Paging
  pub functions : HeapFunctions
  pub machine : Machine

abbrev pub serial_of : Kernel → Serial
serial_of k = k.machine.session.serial

abbrev pub with_serial : Serial → Kernel → Kernel
with_serial s k = record k {
  machine = record (k.machine) { session = record (k.machine.session) { serial = s } };
}

unfoldable pub log : String → Kernel → Kernel
log msg k = with_serial (klogv com1 msg (serial_of k)) k

-- `kmain` from the first message to `serial_init`, whose result is dropped
unfoldable pub init_port : Kernel → Run Kernel
init_port k =
    let k₁ = log "Initialized serial I/O on COM1 device..." k in
    serial_init com1 (serial_of k₁) >>= λ (_, s). ok (with_serial s k₁)

-- on to `cli` and the message behind it
unfoldable pub load_tables : Addresses → Kernel → Kernel
load_tables a k =
    let k₁ = log "Initializing Global Descriptor Table..." k in
    let k₂ = record k₁ { processor = gdt_init a.gdt_table k₁.processor } in
    let k₃ = log "Initializing Interrupt Descriptor Table..." k₂ in
    let k₄ = record k₃ { processor = idt_init a.idt_entries k₃.processor } in
    let k₅ = log "Disabling interrupts..." k₄ in
    let k₆ = record k₅ { processor = cli k₅.processor } in
    log "Initializing Interrupt Request routines..." k₆

-- on to `sti`
unfoldable pub enable_interrupts : Addresses → Kernel → Run Kernel
enable_interrupts a k =
    irq_init (isr_at a.handler_of) (a.handler_of reserved) a.rtc_isr a.sys_call_isr k.gates
    >>= λ gates.
        let k₁ =
          log "Initializing Programmable Interrupt Controller..." (record k { gates = gates }) in
        let k₂ = log "Enabling Interrupts..." (with_serial (pic_init (serial_of k₁)) k₁) in
        ok (record k₂ { processor = sti k₂.processor })

unfoldable pub start_up : Addresses → Kernel → Run Kernel
start_up a k = init_port k >>= λ k₁. enable_interrupts a (load_tables a k₁)

-- `vm_init` and the heap: the early allocator's address, and the heap functions of lib/mem.c
unfoldable pub start_heap : (fuel sz : ℕ) → Kernel → Run Kernel
start_heap fuel sz k = vm_init fuel k.paging >>= λ v.
    kmalloc (add_size (roundup sz) header_bytes) false false v >>= λ (memlist, _, v₁).
    let s = serial_of k in
    let heap = initialize_heap (λ size. memlist) sz s.heap.word in
    ok (record (with_serial (record s { heap = heap }) k) {
      paging = v₁;
      functions = sys_set_heap_functions (allocate_memory fuel) (free_memory fuel);
    })

-- `sizeof(dcb)` on the 32-bit target
abbrev pub dcb_bytes : ℕ
dcb_bytes = 52

-- `serial_open(COM1, 19200)` with its block from the heap, whose old bytes `old` gives, and its gate.
-- The result is dropped.
unfoldable pub open_com1 :
    (kmalloc : ℕ → Heap → Run (ℕ × Heap)) → (old : ℕ → Dcb) → (serial_isr : ℕ) → Kernel → Run Kernel
open_com1 kmalloc old serial_isr k =
    sys_alloc_mem kmalloc k.functions dcb_bytes (serial_of k).heap >>= λ (p, h).
    if p == 0
    then fault
    else (idt_install 0x24 serial_isr k.gates >>= λ gates.
        serial_open com1 (pos 19200) (old p) (record (serial_of k) { heap = h }) >>= λ (_, s).
        ok (with_serial s (record k { gates = gates })))

-- The two processes: `commhand` and `idle_process` are the addresses of the functions.
unfoldable pub first_processes :
    (kmalloc : ℕ → Heap → Run (ℕ × Heap))
    → HeapFunctions
    → (fuel commhand idle_process : ℕ) → Machine
    → Run Machine
unfolding load
first_processes kmalloc functions fuel commhand idle_process m =
    load kmalloc functions fuel true (with_nul "Command Handler") (pos 0) (pos 1) commhand m
    >>= λ m₁.
        load kmalloc functions fuel true (with_nul "Idle Process") (pos 0) (pos 9) idle_process m₁

-- `idle` is the request in assembly: what runs from there until, if ever, the kernel's own thread goes on.
unfoldable pub kmain :
    (kmalloc : ℕ → Heap → Run (ℕ × Heap))
    → (fuel : ℕ) → (old : ℕ → Dcb) → (idle : Kernel → Run Kernel) → Addresses
    → Kernel
    → Run Kernel
kmain kmalloc fuel old idle a k = start_up a k >>= λ k₁.
    start_heap fuel 50000 (log "Initializing Virtual Memory..." k₁) >>= λ k₂.
    open_com1 kmalloc old a.serial_isr (log "Initializing MPX modules..." k₂) >>= λ k₃.
    first_processes kmalloc k₃.functions fuel a.commhand a.sys_idle_process k₃.machine >>= λ m.
    idle (log "Transferring control to commhand..." (record k₃ { machine = m })) >>= λ k₄.
    ok (log "Halting CPU..." (log "Starting system shutdown procedure..." k₄))
