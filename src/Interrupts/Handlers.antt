-- ===== src/Interrupts/Handlers.antt =====
-- The processor's tables and the handlers of kernel/core-c.c: `gdt_init`, `idt_init`, the
-- handlers that `simple_isr` makes, and `rtc_isr`.
use Prim.Native.String.{String}
use mpx.Base.{ℕ, ◌-◌, ◌*◌, Bool, true, false, none, some, List, [], ◌∷◌, get_elem?}
use mpx.Serial.{Serial, outb}
use mpx.Interrupts.{kpanic}

-- An entry of the segment table.
pub record GdtEntry : Type 0 where
  pub limit_low : ℕ
  pub base_low : ℕ
  pub base_mid : ℕ
  pub access : ℕ
  pub flags : ℕ
  pub base_high : ℕ

-- What `lgdt` and `lidt` load.
pub record Descriptor : Type 0 where
  pub size : ℕ
  pub base : ℕ

-- The processor's registers that the kernel's start sets.
pub record Processor : Type 0 where
  pub gdt : Descriptor
  pub idt : Descriptor
  pub ds : ℕ
  pub es : ℕ
  pub fs : ℕ
  pub gs : ℕ
  pub ss : ℕ
  pub enabled : Bool

abbrev pub segment : (limit access flags : ℕ) → GdtEntry
segment limit access flags = record {
  limit_low = limit;
  base_low = 0;
  base_mid = 0;
  access = access;
  flags = flags;
  base_high = 0;
}

-- NULL, CS, DS, User CS and User DS
abbrev pub gdt_table : List GdtEntry
gdt_table =
    segment 0 0 0
    ∷ segment 0xffff 0x9a 0xff
    ∷ segment 0xffff 0x92 0xff
    ∷ segment 0xffff 0xfa 0xff
    ∷ segment 0xffff 0xf2 0xff
    ∷ []

-- `sizeof(struct gdt_entry)` and `sizeof(struct idt_entry)`, which are packed
abbrev pub entry_bytes : ℕ
entry_bytes = 8

-- `gdt_init` with the address of the table
unfoldable pub gdt_init : (table : ℕ) → Processor → Processor
gdt_init table p = record p {
  gdt = record { size = entry_bytes * 5 - 1; base = table };
  ds = 0x10;
  es = 0x10;
  fs = 0x10;
  gs = 0x10;
  ss = 0x10;
}

-- `idt_init` with the address of `idt_entries`
unfoldable pub idt_init : (entries : ℕ) → Processor → Processor
idt_init entries p = record p { idt = record { size = entry_bytes * 256 - 1; base = entries } }

unfoldable pub cli : Processor → Processor
cli p = record p { enabled = false }

unfoldable pub sti : Processor → Processor
sti p = record p { enabled = true }

-- the functions that `simple_isr` makes
pub data Exception : Type 0 where
  divide_error debug nmi breakpoint overflow bounds invalid_op : Exception
  device_not_available double_fault coprocessor_segment invalid_tss : Exception
  segment_not_present stack_segment general_protection page_fault : Exception
  reserved coprocessor : Exception

unfoldable pub message : Exception → String
message divide_error = "Division by zero"
message debug = "Debug"
message nmi = "Non-maskable Interrupt"
message breakpoint = "Breakpoint"
message overflow = "Overflow"
message bounds = "Bounds error"
message invalid_op = "Invalid operation"
message device_not_available = "Device not available"
message double_fault = "Double fault"
message coprocessor_segment = "Coprocessor segment error"
message invalid_tss = "Invalid TSS"
message segment_not_present = "Segment not present"
message stack_segment = "Stack segment error"
message general_protection = "General protection fault"
message page_fault = "Page Fault"
message reserved = "Reserved"
message coprocessor = "Coprocessor error"

unfoldable pub simple_isr : Exception → Processor → Serial → Processor × Serial
unfolding message cli kpanic
simple_isr fn p s = (cli p, kpanic (message fn) s)

-- the array `isrs`
abbrev pub isrs : List Exception
isrs =
    divide_error ∷ debug ∷ nmi ∷ breakpoint ∷ overflow ∷ bounds ∷ invalid_op ∷ device_not_available
    ∷ double_fault ∷ coprocessor_segment ∷ invalid_tss ∷ segment_not_present ∷ stack_segment
    ∷ general_protection ∷ page_fault ∷ reserved ∷ coprocessor ∷ []

-- the address of a handler of the array, for `irq_init`
unfoldable pub isr_at : (address : Exception → ℕ) → ℕ → ℕ
isr_at address i = elim (get_elem? isrs i) [ none ↦ 0 | some fn ↦ address fn ]

unfoldable pub rtc_isr : Processor → Serial → Processor × Serial
unfolding cli sti outb
rtc_isr p s = (sti (cli p), outb 0xa0 0x20 s)
