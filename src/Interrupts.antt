-- ===== src/Interrupts.antt =====
-- The interrupt descriptor table, the interrupt controllers and the panic of kernel/core-c.c. The
-- handlers are the addresses that the caller gives: `isrs` those of the array in `irq_init`, in
-- order. The processor's registers are in Handlers; the value of `io_wait`'s write is left out.
pub mod Gates
pub mod Handlers
use Prim.Native.String.{String}
use mpx.Base.{ℕ, zero, suc, ◌+◌, ◌*◌, ◌/◌, ◌%◌, ◌^◌, ltb, ◌==◌, if◌then◌else◌}
use mpx.Base.Run.{Run, ok, fault, ◌>>=◌}
use mpx.Base.Text.{codes}
use mpx.Serial.{Serial, com1, outb, serial_out}

pub record Gate : Type 0 where
  pub base_low : ℕ
  pub sselect : ℕ
  pub zero_byte : ℕ
  pub flags : ℕ
  pub base_high : ℕ

abbrev pub required_interrupts : ℕ
required_interrupts = 32

-- `sizeof(isrs) / sizeof(isrs[0])`
abbrev pub nisrs : ℕ
nisrs = 17

abbrev pub code_selector : ℕ
code_selector = 0x08

abbrev pub gate_flags : ℕ
gate_flags = 0x8e

abbrev pub gate : (fn sel flags : ℕ) → Gate
gate fn sel flags = record {
  base_low = fn % 2 ^ 16;
  sselect = sel;
  zero_byte = 0;
  flags = flags;
  base_high = fn / 2 ^ 16 % 2 ^ 16;
}

-- The table has 256 entries.
unfoldable pub idt_set_gate : (idx fn sel flags : ℕ) → (ℕ → Gate) → Run (ℕ → Gate)
idt_set_gate idx fn sel flags entries =
    if ltb idx 256 then ok (λ i. if i == idx then gate fn sel flags else entries i) else fault

unfoldable pub idt_install : (vector handler : ℕ) → (ℕ → Gate) → Run (ℕ → Gate)
unfolding idt_set_gate
idt_install vector handler entries = idt_set_gate vector handler 0x08 0x8e entries

-- `n` rounds of a loop from `i` on
unfoldable pub set_gates : (n i : ℕ) → (fn : ℕ → ℕ) → (ℕ → Gate) → Run (ℕ → Gate)
unfolding idt_set_gate
set_gates zero i fn entries = ok entries
set_gates (suc n) i fn entries =
    idt_set_gate i (fn i) code_selector gate_flags entries >>= set_gates n (i + 1) fn

unfoldable pub irq_init :
    (isrs : ℕ → ℕ) → (reserved rtc_isr sys_call_isr : ℕ) → (ℕ → Gate) → Run (ℕ → Gate)
irq_init isrs reserved rtc_isr sys_call_isr entries = set_gates nisrs 0 isrs entries >>= λ t₁.
    set_gates 15 nisrs (λ i. reserved) t₁ >>= λ t₂.
    idt_set_gate 0x08 rtc_isr code_selector gate_flags t₂ >>= λ t₃.
    idt_set_gate 0x60 sys_call_isr code_selector gate_flags t₃

abbrev pub pic1 : ℕ
pic1 = 0x20

abbrev pub pic2 : ℕ
pic2 = 0xa0

unfoldable pub pic_init : Serial → Serial
unfolding outb
pic_init s =
    let s₁ = outb pic2 0x11 (outb pic1 0x11 s) in
    let s₂ = outb (pic2 + 1) 0x28 (outb (pic1 + 1) 0x20 s₁) in
    let s₃ = outb (pic2 + 1) 2 (outb (pic1 + 1) 4 s₂) in
    let s₄ = outb (pic2 + 1) 0x01 (outb (pic1 + 1) 0x01 s₃) in
    outb (pic2 + 1) 0xff (outb (pic1 + 1) 0xff s₄)

-- what `kpanic` does up to its endless loop
unfoldable pub kpanic : String → Serial → Serial
unfolding serial_out
kpanic msg s =
    let (_, s₁) = serial_out com1 (codes "Panic: ") s in
    let (_, s₂) = serial_out com1 (codes msg) s₁ in
    let (_, s₃) = serial_out com1 (codes "\r\nPress Ctrl-A, then X to quit QEMU.\r\n") s₂ in s₃
