-- ===== src/Boot/Started.antt =====
-- The kernel as kmain has set it up by its IDLE request.
use mathlib.Core.Path.{subst}
use mpx.Base.{
  ℕ, ◌^◌, ◌<◌, ◌≡◌, refl, ◌∙◌, ap, Bool, false, Option, some, none, List, ◌∷◌, arith, get_elem?,
}
use mpx.Base.Run.{Returns, returns, Returns-bind, Returns-mono}
use mpx.Serial.{Serial, com1}
use mpx.Interrupts.{pic_init}
use mpx.Interrupts.Gates.{handler, Installed, irq_init-Installed}
use mpx.Interrupts.Handlers.{Exception, reserved, gdt_init, idt_init, cli, sti, isr_at, isrs}
use mpx.Boot.{
  Addresses, Kernel, serial_of, with_serial, klogv, log, init_port, load_tables, enable_interrupts,
  start_up,
}
use mpx.Boot.Ports.{
  SameButOutputs, SameButOutputs-trans, klogv-SameButOutputs, pic_init-SameButOutputs,
  serial_init-opened,
}

-- the handlers' addresses have 32 bits
pub record SmallAddresses (a : Addresses) : Type 0 where
  pub small_handlers : (fn : Exception) → a.handler_of fn < 2 ^ 32
  pub small_rtc : a.rtc_isr < 2 ^ 32
  pub small_sys_call : a.sys_call_isr < 2 ^ 32
  pub small_serial : a.serial_isr < 2 ^ 32

isr_at-small :
    (address : Exception → ℕ) (i : ℕ)
    → ((fn : Exception) → address fn < 2 ^ 32)
    → isr_at address i < 2 ^ 32
unfolding isr_at
isr_at-small address i small = at (get_elem? isrs i)
  where
    at : (o : Option Exception) → elim o [ none ↦ 0 | some fn ↦ address fn ] < 2 ^ 32
    at none = omega arith
    at (some fn) = small fn

-- the handlers that `irq_init` finds
abbrev pub installed_at : Addresses → ℕ → Option ℕ
installed_at a = handler (isr_at a.handler_of) (a.handler_of reserved) a.rtc_isr a.sys_call_isr

-- what `kmain` leaves by `sti`
pub record StartedUp (a : Addresses) (more : List ℕ) (k k' : Kernel) : Type 0 where
  pub processor_at :
      k'.processor ≡ sti (cli (idt_init a.idt_entries (gdt_init a.gdt_table k.processor)))
  pub gates_at : (j : ℕ) → Installed (installed_at a j) (k.gates j) (k'.gates j)
  pub inputs_at : (serial_of k').inputs ≡ more
  pub heap_at : (serial_of k').heap ≡ (serial_of k).heap
  pub same_paging : k'.paging ≡ k.paging
  pub same_queues : k'.machine.session.queues ≡ k.machine.session.queues

init_port-opened :
    (v : ℕ) (more : List ℕ) (rest : List Bool) (k : Kernel)
    → (serial_of k).inputs ≡ v ∷ more
    → (serial_of k).initialized ≡ false ∷ rest
    → Returns
        (λ k'.
          (k' ≡ with_serial (serial_of k') k)
          × ((serial_of k').inputs ≡ more)
          × ((serial_of k').heap ≡ (serial_of k).heap))
        (init_port k)
unfolding init_port log
init_port-opened v more rest k reads closed =
    let e = klogv-SameButOutputs "Initialized serial I/O on COM1 device..." (serial_of k) in
    Returns-bind
      (serial_init-opened v more false rest _ (ap (λ (x : Serial). x.inputs) e ∙ reads)
        (ap (λ (x : Serial). x.initialized) e ∙ closed))
      λ (failed, s) (r, _, h). returns (refl, r, h ∙ ap (λ (x : Serial). x.heap) e)

-- a kernel whose processor has its tables, with interrupts disabled
abbrev tabled : Addresses → Serial → Kernel → Kernel
tabled a s k = record (with_serial s k) {
  processor = cli (idt_init a.idt_entries (gdt_init a.gdt_table k.processor));
}

load_tables-tabled :
    (a : Addresses) (k : Kernel)
    → (s : Serial) × (load_tables a k ≡ tabled a s k) × SameButOutputs (serial_of k) s
unfolding load_tables log
load_tables-tabled a k =
    let s₁ = klogv com1 "Initializing Global Descriptor Table..." (serial_of k) in
    let s₂ = klogv com1 "Initializing Interrupt Descriptor Table..." s₁ in
    let s₃ = klogv com1 "Disabling interrupts..." s₂ in
    let s₄ = klogv com1 "Initializing Interrupt Request routines..." s₃ in
    (
      s₄,
      refl,
      SameButOutputs-trans (serial_of k) s₁ s₄
          (klogv-SameButOutputs "Initializing Global Descriptor Table..." (serial_of k))
          (SameButOutputs-trans s₁ s₂ s₄
            (klogv-SameButOutputs "Initializing Interrupt Descriptor Table..." s₁)
            (SameButOutputs-trans s₂ s₃ s₄ (klogv-SameButOutputs "Disabling interrupts..." s₂)
              (klogv-SameButOutputs "Initializing Interrupt Request routines..." s₃))),
    )

enable_interrupts-Installed :
    (a : Addresses) (k : Kernel)
    → SmallAddresses a
    → Returns
        (λ k'.
          (k' ≡ record (with_serial (serial_of k') k) {
            gates = k'.gates;
            processor = sti k.processor;
          })
          × ((j : ℕ) → Installed (installed_at a j) (k.gates j) (k'.gates j))
          × SameButOutputs (serial_of k) (serial_of k'))
        (enable_interrupts a k)
unfolding enable_interrupts log
enable_interrupts-Installed a k small =
    let s₁ = klogv com1 "Initializing Programmable Interrupt Controller..." (serial_of k) in
    let s₂ = pic_init s₁ in
    Returns-bind
      (irq_init-Installed (isr_at a.handler_of) (a.handler_of reserved) a.rtc_isr a.sys_call_isr
        k.gates (λ i. isr_at-small a.handler_of i small.small_handlers)
        (small.small_handlers reserved, small.small_rtc, small.small_sys_call))
      λ gates installed. returns (
        refl,
        installed,
        SameButOutputs-trans (serial_of k) s₁ (klogv com1 "Enabling Interrupts..." s₂)
            (klogv-SameButOutputs "Initializing Programmable Interrupt Controller..." (serial_of k))
            (SameButOutputs-trans s₁ s₂ (klogv com1 "Enabling Interrupts..." s₂)
              (pic_init-SameButOutputs s₁) (klogv-SameButOutputs "Enabling Interrupts..." s₂)),
      )

pub start_up-StartedUp :
    (a : Addresses) (v : ℕ) (more : List ℕ) (rest : List Bool) (k : Kernel)
    → SmallAddresses a
    → (serial_of k).inputs ≡ v ∷ more
    → (serial_of k).initialized ≡ false ∷ rest
    → Returns (StartedUp a more k) (start_up a k)
unfolding start_up
start_up-StartedUp a v more rest k small reads closed =
    Returns-bind (init_port-opened v more rest k reads closed) λ k₁ (e₁, reads₁, heap₁).
      let (s₂, e₂, q₂) = load_tables-tabled a k₁ in
      rw e₂ (
        Returns-mono (enable_interrupts-Installed a (tabled a s₂ k₁) small)
          λ k₃ (e₃, installed, q₃). record {
            processor_at =
                ap (λ (x : Kernel). x.processor) e₃
                ∙ ap
                    (λ (x : Kernel).
                      sti (cli (idt_init a.idt_entries (gdt_init a.gdt_table x.processor))))
                    e₁;
            gates_at = λ j.
                subst (λ g. Installed (installed_at a j) g (k₃.gates j))
                  (ap (λ (x : Kernel). x.gates j) e₁) (installed j);
            inputs_at =
                ap (λ (x : Serial). x.inputs) q₃ ∙ ap (λ (x : Serial). x.inputs) q₂ ∙ reads₁;
            heap_at = ap (λ (x : Serial). x.heap) q₃ ∙ ap (λ (x : Serial). x.heap) q₂ ∙ heap₁;
            same_paging = ap (λ (x : Kernel). x.paging) e₃ ∙ ap (λ (x : Kernel). x.paging) e₁;
            same_queues =
                ap (λ (x : Kernel). x.machine.session.queues) e₃
                ∙ ap (λ (x : Kernel). x.machine.session.queues) e₁;
          })
