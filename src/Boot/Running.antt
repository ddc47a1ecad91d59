-- ===== src/Boot/Running.antt =====
-- The kernel as kmain's IDLE request finds it.
use Prim.Native.String.{String}
use mathlib.Core.Path.{subst}
use mpx.Base.{ℕ, ◌+◌, ◌≤◌, ◌≡◌, refl, ◌∙◌, ap, sym, Bool, true, false, some, List, [], ◌∷◌, arith}
use mpx.Base.Int.{pos}
use mpx.Base.Run.{Run, ok, ◌>>=◌, returned}
use mpx.Base.Text.{codes}
use mpx.Heap.{Heap, allocate_memory}
use mpx.Heap.Blocks.{IsHeap}
use mpx.Serial.{Serial, Dcb}
use mpx.Interrupts.{Gate, code_selector, gate_flags}
use mpx.Interrupts.Gates.{target, target-gate, Installed}
use mpx.Interrupts.Handlers.{Processor, cli, sti}
use mpx.Pcb.{ready}
use mpx.Pcb.Queue.{has, IsQueue}
use mpx.Command.Load.{Machine}
use mpx.Command.Load.Contexts.{IsProcess}
use mpx.Command.Load.Jobs.{AllLoaded, CanLoad, IsProcess-kept}
use mpx.Vm.{kheap_base}
use mpx.Vm.Start.{Paged}
use mpx.Boot.{
  Addresses, Kernel, serial_of, log, start_up, start_heap, open_com1, first_processes, kmain,
}
use mpx.Boot.First.{first_jobs, first_processes-AllLoaded}
use mpx.Boot.Ports.{klogv-SameButOutputs}
use mpx.Boot.Memory.{boot_blocks, commhand_block, idle_block, boot_heaps}
use mpx.Boot.Started.{SmallAddresses, StartedUp, start_up-StartedUp}
use mpx.Boot.Kmain.{FreeMemory, HeapReady, PortOpen, start_heap-HeapReady, open_com1-PortOpen}
use mpx.Boot.Processes.{NoProcesses, NoProcesses-Named, boot-CanLoad, first_jobs-IsQueue}

-- what `kmain` has set up when it gives the processor up
pub record Running (a : Addresses) (start total : ℕ) (k : Kernel) : Type 0 where
  pub interrupts_on : k.processor.enabled ≡ true
  pub sys_call_gate : target (k.gates 0x60) ≡ a.sys_call_isr
  pub serial_gate : target (k.gates 0x24) ≡ a.serial_isr
  pub paged : Paged total start (kheap_base + 50004) k.paging
  pub heap_blocks : IsHeap (serial_of k).heap (boot_blocks 3)
  pub ready_queue : IsQueue ready k.machine.session.queues (commhand_block ∷ idle_block ∷ [])
  pub commhand_at :
      IsProcess k.machine commhand_block (codes "Command Handler") (pos 0) (pos 1) a.commhand
  pub idle_at :
      IsProcess k.machine idle_block (codes "Idle Process") (pos 0) (pos 9) a.sys_idle_process

kmain-run :
    (kmalloc : ℕ → Heap → Run (ℕ × Heap)) (fuel : ℕ) (old : ℕ → Dcb) (idle : Kernel → Run Kernel)
    (a : Addresses) (k k₁ k₂ k₃ : Kernel) (m : Machine)
    → start_up a k ≡ ok k₁
    → start_heap fuel 50000 (log "Initializing Virtual Memory..." k₁) ≡ ok k₂
    → open_com1 kmalloc old a.serial_isr (log "Initializing MPX modules..." k₂) ≡ ok k₃
    → first_processes kmalloc k₃.functions fuel a.commhand a.sys_idle_process k₃.machine ≡ ok m
    → kmain kmalloc fuel old idle a k ≡ (
        idle (log "Transferring control to commhand..." (record k₃ { machine = m })) >>= λ k₄.
        ok (log "Halting CPU..." (log "Starting system shutdown procedure..." k₄)))
unfolding kmain
kmain-run kmalloc fuel old idle a k k₁ k₂ k₃ m r₁ r₂ r₃ r₄ =
    let last : Kernel → Run Kernel = λ x.
      idle x >>= λ k₄. ok (log "Halting CPU..." (log "Starting system shutdown procedure..." k₄)) in
    let third : Kernel → Run Kernel = λ x.
      first_processes kmalloc x.functions fuel a.commhand a.sys_idle_process x.machine >>= λ y.
      last (log "Transferring control to commhand..." (record x { machine = y })) in
    let second : Kernel → Run Kernel =
      λ x. open_com1 kmalloc old a.serial_isr (log "Initializing MPX modules..." x) >>= third in
    let first : Kernel → Run Kernel =
      λ x. start_heap fuel 50000 (log "Initializing Virtual Memory..." x) >>= second in
    ap (λ (r : Run Kernel). r >>= first) r₁
    ∙ ap (λ (r : Run Kernel). r >>= second) r₂
    ∙ ap (λ (r : Run Kernel). r >>= third) r₃
    ∙ ap
        (λ (r : Run Machine).
          r >>= λ y. last (log "Transferring control to commhand..." (record k₃ { machine = y })))
        r₄

-- an entry that leads to a handler
Installed-target : (fn : ℕ) (before now : Gate) → Installed (some fn) before now → target now ≡ fn
Installed-target fn before now i = i.0

at_request : Kernel → Machine → Kernel
at_request k m = log "Transferring control to commhand..." (record k { machine = m })

-- the kernel at the request, from what its parts have left
module _ (a : Addresses) (start total fuel : ℕ) (more : List ℕ) (port_heap h h' : Heap)
    (k k₁ k₂ k₃ : Kernel) (m : Machine) where
  at_request-Running :
      SmallAddresses a
      → StartedUp a more k k₁
      → HeapReady fuel start total (log "Initializing Virtual Memory..." k₁) k₂
      → PortOpen port_heap a.serial_isr (log "Initializing MPX modules..." k₂) k₃
      → AllLoaded
          (first_jobs a.commhand a.sys_idle_process commhand_block idle_block h h')
          []
          []
          k₃.machine
          m
      → IsHeap h' (boot_blocks 3)
      → Running a start total (at_request k₃ m)
  unfolding at_request log sti cli
  at_request-Running small s₁ s₂ s₃ l final =
      let (c, (i, _)) = l.processes in
      let e = klogv-SameButOutputs "Transferring control to commhand..." m.session.serial in
      record {
        interrupts_on =
            ap (λ (p : Processor). p.enabled)
              (s₃.same_processor ∙ s₂.same_processor ∙ s₁.processor_at);
        sys_call_gate =
            ap target (s₃.other_gates 0x60 (omega arith) ∙ ap (λ g. g 0x60) s₂.same_gates)
            ∙ Installed-target a.sys_call_isr (k.gates 0x60) (k₁.gates 0x60) (s₁.gates_at 0x60);
        serial_gate =
            ap target s₃.serial_gate
            ∙ target-gate a.serial_isr code_selector gate_flags small.small_serial;
        paged = subst (Paged total start (kheap_base + 50004)) (sym s₃.same_paging) s₂.paged;
        heap_blocks =
            subst (λ x. IsHeap x (boot_blocks 3)) (sym (ap (λ (x : Serial). x.heap) e ∙ l.heap_at))
              final;
        ready_queue = first_jobs-IsQueue a h h' k₃.machine m l;
        commhand_at =
            IsProcess-kept m (at_request k₃ m).machine commhand_block (codes "Command Handler")
              (pos 0) (pos 1) a.commhand refl refl c;
        idle_at =
            IsProcess-kept m (at_request k₃ m).machine idle_block (codes "Idle Process") (pos 0)
              (pos 9) a.sys_idle_process refl refl i;
      }

log-same :
    (msg : String) (k : Kernel)
    → ((serial_of (log msg k)).inputs ≡ (serial_of k).inputs)
      × ((serial_of (log msg k)).heap ≡ (serial_of k).heap)
      × ((log msg k).paging ≡ k.paging)
      × ((log msg k).functions ≡ k.functions)
      × ((log msg k).machine.session.queues ≡ k.machine.session.queues)
unfolding log
log-same msg k =
    let e = klogv-SameButOutputs msg (serial_of k) in
    (ap (λ (x : Serial). x.inputs) e, ap (λ (x : Serial). x.heap) e, refl, refl, refl)

-- With COM1 not initialized and two bytes to read from ports, handlers at addresses of 32 bits, free
-- memory from `start` on (between 4,096 and 4,000,000), empty queues and fuel for 1,024 rounds, `kmain`
-- reaches its IDLE request, whatever that does. By then interrupts are on, the gates of system calls
-- and of COM1 lead to their handlers, the kernel's memory is mapped to itself, the heap holds the
-- driver's block and the two processes', and the ready queue is the command handler and behind it the
-- idle process, each set to start at its function.
pub kmain-Running :
    (kmalloc : ℕ → Heap → Run (ℕ × Heap)) (fuel : ℕ) (old : ℕ → Dcb) (idle : Kernel → Run Kernel)
    (a : Addresses) (start total v mask : ℕ) (more : List ℕ) (rest : List Bool) (k : Kernel)
    → SmallAddresses a
    → (serial_of k).inputs ≡ v ∷ mask ∷ more
    → (serial_of k).initialized ≡ false ∷ rest
    → FreeMemory start total k.paging
    → NoProcesses k.machine.session.queues
    → 1024 ≤ fuel
    → (k' : Kernel) × Running a start total k'
      × (kmain kmalloc fuel old idle a k ≡ (
          idle k' >>= λ k₁.
          ok (log "Halting CPU..." (log "Starting system shutdown procedure..." k₁))))
unfolding at_request
kmain-Running kmalloc fuel old idle a start total v mask more rest k small reads closed memory
      nothing enough =
    let (k₁, r₁, s₁) = returned (start_up-StartedUp a v (mask ∷ more) rest k small reads closed) in
    let l₁ = log "Initializing Virtual Memory..." k₁ in
    let (i₁, _, p₁, _, q₁) = log-same "Initializing Virtual Memory..." k₁ in
    let (k₂, r₂, s₂) = returned (
      start_heap-HeapReady fuel start total l₁
        (subst (FreeMemory start total) (sym (p₁ ∙ s₁.same_paging)) memory) enough) in
    let l₂ = log "Initializing MPX modules..." k₂ in
    let (i₂, h₂, _, f₂, q₂) = log-same "Initializing MPX modules..." k₂ in
    let hs = boot_heaps fuel (serial_of l₁).heap.word (omega arith) in
    let (k₃, r₃, s₃) = returned (
      open_com1-PortOpen kmalloc fuel mask more old a.serial_isr hs.port_heap l₂
        (f₂ ∙ s₂.functions_set) (ap (allocate_memory fuel 52) (h₂ ∙ s₂.one_block) ∙ hs.port_given)
        (i₂ ∙ s₂.same_inputs ∙ i₁ ∙ s₁.inputs_at)) in
    let queues : k₃.machine.session.queues ≡ k.machine.session.queues =
      s₃.same_queues ∙ q₂ ∙ s₂.same_queues ∙ q₁ ∙ s₁.same_queues in
    let nothing₃ = subst NoProcesses (sym queues) nothing in
    let can =
      boot-CanLoad kmalloc fuel a _ hs k₃.functions (s₃.same_functions ∙ f₂ ∙ s₂.functions_set) in
    let (m, r₄, l) = returned (
      first_processes-AllLoaded kmalloc k₃.functions fuel a.commhand a.sys_idle_process
        commhand_block idle_block hs.commhand_heap hs.idle_heap k₃.machine (λ q. []) [] []
        (subst
          (λ h.
            CanLoad kmalloc k₃.functions
              (first_jobs a.commhand a.sys_idle_process commhand_block idle_block hs.commhand_heap
                hs.idle_heap)
              h (λ q. []) (λ q. has q []))
          (sym s₃.heap_now) can)
        (NoProcesses-Named k₃.machine.session.queues nothing₃) tt (λ q _. nothing₃.room_for_name q)
        (omega arith) (omega arith)) in
    (
      at_request k₃ m,
      at_request-Running a start total fuel (mask ∷ more) hs.port_heap hs.commhand_heap hs.idle_heap
          k k₁ k₂ k₃ m small s₁ s₂ s₃ l hs.final,
      kmain-run kmalloc fuel old idle a k k₁ k₂ k₃ m r₁ r₂ r₃ r₄,
    )
