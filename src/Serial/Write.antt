-- ===== src/Serial/Write.antt =====
-- `serial_write` of kernel/serial.c and the output interrupts that follow it.
use mpx.Base.{ℕ, ◌+◌, ◌%◌, ◌<◌, ◌≡◌, true, false, some, List, ◌∷◌, ◌==◌, get_elem?}
use mpx.Base.Int.{ℤ}
use mpx.Base.Run.{Run, ok, ◌>>=◌}
use mpx.Heap.{Heap}
use mpx.SysMem.{HeapFunctions}
use mpx.Pcb.{Queues}
use mpx.Serial.{null, available, idle, write, Serial, set_bit}
use mpx.Serial.Requests.{int_of_size, serial_write}
use mpx.Serial.Transmit.{output_interrupts}

-- the driver once a write is begun: its first byte is sent
abbrev pub started : (dev buf len mask : ℕ) (inputs : List ℕ) → Serial → Serial
started dev buf len mask inputs s = record s {
  port = record (s.port) {
    operation = write;
    event_flag = 1;
    counter = 1;
    count = int_of_size len;
  };
  inputs = inputs;
  outputs = (dev, s.bytes buf % 256) ∷ (dev + 1, set_bit 2 mask % 256) ∷ (dev + 1, 0) ∷ s.outputs;
}

-- A write that the driver takes: it is idle and open, its first request is there and has the buffer,
-- and the port answers the reading of its mask.
pub record IsWritable (buf mask : ℕ) (inputs : List ℕ) (s : Serial) : Type 0 where
  pub status : s.port.status ≡ available
  pub operation : s.port.operation ≡ idle
  pub is_open : get_elem? s.initialized 0 ≡ some true
  pub nonnull : 0 < buf
  pub queued : (s.port.io_head == null) ≡ false
  pub buffer : (s.iocb s.port.io_head).buffer ≡ buf
  pub reads : s.inputs ≡ mask ∷ inputs

-- `serial_write` and `k` output interrupts after it, with what `serial_write` returned
abbrev pub write_and_interrupts :
    (kmalloc : ℕ → Heap → Run (ℕ × Heap))
    → HeapFunctions
    → (fuel k dev buf len : ℕ) → Serial
    → Queues
    → Run (ℤ × Serial × Queues)
write_and_interrupts kmalloc functions fuel k dev buf len s q =
    serial_write dev buf len s >>= λ (code, s₁).
    output_interrupts kmalloc functions k fuel s₁ q >>= λ (s₂, q₂). ok (code, s₂, q₂)
