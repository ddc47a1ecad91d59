-- ===== src/Boot/Kmain.antt =====
-- kmain from its start to its IDLE request.
use mpx.Base.{ℕ, ◌+◌, ◌^◌, ◌≤◌, ◌≡◌, ◌≢◌, refl, ◌∙◌, true, false, none, List, ◌∷◌, arith, ◌==◌}
use mpx.Base.Run.{Run, ok, Returns, returns, returned, Returns-bind}
use mpx.Heap.{Heap, initialize_heap, allocate_memory, free_memory}
use mpx.SysMem.{HeapFunctions, sys_set_heap_functions, sys_alloc_mem}
use mpx.Serial.{Dcb}
use mpx.Interrupts.{code_selector, gate_flags, gate, idt_install}
use mpx.Vm.{page_size, kheap_base, Paging, alloc, find_page, kmalloc}
use mpx.Vm.Span.{HasFrames}
use mpx.Vm.Start.{pages_used, Paged, vm_init-Paged}
use mpx.Boot.{Kernel, serial_of, start_heap, open_com1, dcb_bytes}
use mpx.Boot.Ports.{serial_open-opened}
use mpx.Boot.Memory.{kernel_heap}

-- a kernel's memory at power-on: free from `start` on, without page entries, `total` frames
pub record FreeMemory (start total : ℕ) (v : Paging) : Type 0 where
  pub early : v.heap_is_initialized ≡ false
  pub kernel_end : v.phys_alloc_addr ≡ start
  pub low : page_size ≤ start
  pub high : start ≤ 4000000
  pub no_entries : (a : ℕ) → start ≤ a → (v.page a).frameaddr ≡ 0
  pub frames_free : HasFrames 0 total v
  pub room : pages_used start + 16 ≤ total
  pub bounded : total ≤ 2 ^ 20
  pub heap_start : v.heap_addr ≡ kheap_base

-- an allocation from the kernel heap
late_kmalloc :
    (v : Paging)
    → v.heap_is_initialized ≡ true
    → v.heap_addr ≡ kheap_base
    → kmalloc 50004 false false v
      ≡ ok (kheap_base, none, record v { heap_addr = kheap_base + 50004 })
unfolding kmalloc alloc
late_kmalloc v on at = rw (on, at) refl

Paged-alloc :
    (total start h h' : ℕ) (v : Paging)
    → Paged total start h v
    → Paged total start h' (record v { heap_addr = h' })
unfolding find_page
Paged-alloc total start h h' v p = record {
  heap_ready = p.heap_ready;
  next_block = refl;
  null_page = p.null_page;
  identity = p.identity;
  covers = p.covers;
  heap_pages = p.heap_pages;
  frames_used = record { words = p.frames_used.words; bits = p.frames_used.bits };
}

-- what the paging and the heap are after `sys_set_heap_functions`
pub record HeapReady (fuel start total : ℕ) (k k' : Kernel) : Type 0 where
  pub paged : Paged total start (kheap_base + 50004) k'.paging
  pub one_block :
      (serial_of k').heap ≡ initialize_heap (λ size. kernel_heap) 50000 (serial_of k).heap.word
  pub functions_set :
      k'.functions ≡ sys_set_heap_functions (allocate_memory fuel) (free_memory fuel)
  pub same_inputs : (serial_of k').inputs ≡ (serial_of k).inputs
  pub same_processor : k'.processor ≡ k.processor
  pub same_gates : k'.gates ≡ k.gates
  pub same_queues : k'.machine.session.queues ≡ k.machine.session.queues

pub start_heap-HeapReady :
    (fuel start total : ℕ) (k : Kernel)
    → FreeMemory start total k.paging
    → 1024 ≤ fuel
    → Returns (HeapReady fuel start total k) (start_heap fuel 50000 k)
unfolding start_heap
start_heap-HeapReady fuel start total k m enough =
    let (v, run, p) = returned (
      vm_init-Paged fuel start total k.paging m.early m.kernel_end m.low m.high m.no_entries
        m.frames_free m.room m.bounded enough) in
    let at : v.heap_addr ≡ kheap_base = p.next_block ∙ m.heap_start in
    rw (run, late_kmalloc v p.heap_ready at)
      (returns (record {
        paged = Paged-alloc total start k.paging.heap_addr (kheap_base + 50004) v p;
        one_block = refl;
        functions_set = refl;
        same_inputs = refl;
        same_processor = refl;
        same_gates = refl;
        same_queues = refl;
      }))

pub sys_alloc_mem-set :
    (kmalloc : ℕ → Heap → Run (ℕ × Heap)) (fuel sz : ℕ) (h : Heap) (functions : HeapFunctions)
    → functions ≡ sys_set_heap_functions (allocate_memory fuel) (free_memory fuel)
    → sys_alloc_mem kmalloc functions sz h ≡ allocate_memory fuel sz h
unfolding sys_alloc_mem sys_set_heap_functions
sys_alloc_mem-set kmalloc fuel sz h functions e = rw e refl

-- what `serial_open` leaves
pub record PortOpen (h : Heap) (serial_isr : ℕ) (k k' : Kernel) : Type 0 where
  pub heap_now : (serial_of k').heap ≡ h
  pub serial_gate : k'.gates 0x24 ≡ gate serial_isr code_selector gate_flags
  pub other_gates : (j : ℕ) → j ≢ 0x24 → k'.gates j ≡ k.gates j
  pub same_paging : k'.paging ≡ k.paging
  pub same_functions : k'.functions ≡ k.functions
  pub same_processor : k'.processor ≡ k.processor
  pub same_queues : k'.machine.session.queues ≡ k.machine.session.queues

pub open_com1-PortOpen :
    (kmalloc : ℕ → Heap → Run (ℕ × Heap)) (fuel mask : ℕ) (more : List ℕ) (old : ℕ → Dcb)
    (serial_isr : ℕ) (h : Heap) (k : Kernel)
    → k.functions ≡ sys_set_heap_functions (allocate_memory fuel) (free_memory fuel)
    → allocate_memory fuel 52 (serial_of k).heap ≡ ok (kernel_heap + 4, h)
    → (serial_of k).inputs ≡ mask ∷ more
    → Returns (PortOpen h serial_isr k) (open_com1 kmalloc old serial_isr k)
unfolding open_com1 idt_install
open_com1-PortOpen kmalloc fuel mask more old serial_isr h k set gives reads =
    let given =
      sys_alloc_mem-set kmalloc fuel dcb_bytes (serial_of k).heap k.functions set ∙ gives in
    let opened =
      serial_open-opened mask more (old (kernel_heap + 4)) (record (serial_of k) { heap = h })
        reads in
    rw given (
      Returns-bind opened λ (code, s) (_, _, _, heap). returns (record {
        heap_now = heap;
        serial_gate = refl;
        other_gates = λ j ne. let other : (j == 0x24) ≡ false = ground (arith, ne) in rw other refl;
        same_paging = refl;
        same_functions = refl;
        same_processor = refl;
        same_queues = refl;
      }))
