-- ===== src/Serial/Transmit.antt =====
-- A write that the output interrupts of kernel/serial.c carry to its end.
use mpx.Base.{
  ℕ, zero, suc, ◌+◌, ◌%◌, ◌<◌, ◌≤◌, ◌≡◌, refl, ◌∙◌, ap, Bool, true, false, not, ◌&&◌, some, List,
  ◌∷◌, arith, ◌==◌, length,
}
use mpx.Base.Int.{pos, ltb_ℤ}
use mpx.Base.Run.{Run, ok, ◌>>=◌, Returns, returns, Returns-bind}
use mpx.Heap.{Heap}
use mpx.SysMem.{HeapFunctions, sys_free_mem}
use mpx.Pcb.{Queues, ready, insert_head, ready_state, set_state}
use mpx.Pcb.Queue.{has, IsQueue, Linked-frame}
use mpx.Pcb.Insert.{Inserted, pcb_insert_lem}
use mpx.Serial.{null, com1, available, idle, write, is_write, Serial, clear_bit}
use mpx.Serial.Requests.{serial_output_interrupt, unblock_pcb}

-- A write of the first request is under way, from its buffer at `p`.
pub record IsSending (s : Serial) (p : ℕ) : Type 0 where
  pub operation : s.port.operation ≡ write
  pub event_flag : s.port.event_flag ≡ 1
  pub queued : (s.port.io_head == null) ≡ false
  pub buffer : (s.iocb s.port.io_head).buffer ≡ p

-- the next byte sent: before it the byte 2 goes to COM1
abbrev pub send_next : ℕ → Serial → Serial
send_next p s = record s {
  port = record (s.port) { counter = s.port.counter + 1 };
  outputs = (s.port.curr_dev, s.bytes (p + s.port.counter) % 256) ∷ (com1, 2) ∷ s.outputs;
}

-- what the port was sent after `k` bytes from the index `c` on
abbrev pub stream : (dev : ℕ) → (ℕ → ℕ) → (p c k : ℕ) → List (ℕ × ℕ) → List (ℕ × ℕ)
stream dev f p c zero out = out
stream dev f p c (suc k) out = stream dev f p (c + 1) k ((dev, f (p + c) % 256) ∷ (com1, 2) ∷ out)

interrupt_send :
    (kmalloc : ℕ → Heap → Run (ℕ × Heap)) (functions : HeapFunctions) (fuel p : ℕ) (s : Serial)
    (q : Queues)
    → IsSending s p
    → (n : ℕ) → s.port.count ≡ pos n
    → s.port.counter < n
    → serial_output_interrupt kmalloc functions fuel s q ≡ ok (send_next p s, q)
unfolding serial_output_interrupt
interrupt_send kmalloc functions fuel p s q is n size more =
    let busy : not (is_write s.port.operation) ≡ false = ap (λ o. not (is_write o)) is.operation in
    let going : (s.port.event_flag == 1 && ltb_ℤ (pos s.port.counter) s.port.count) ≡ true =
      rw size (ground (arith, is.event_flag)) in
    simp (busy, going, is.queued, is.buffer) refl

-- the driver once the last byte is sent, before the process is readied
abbrev pub finished : (mask : ℕ) (inputs : List ℕ) → Heap → Serial → Serial
finished mask inputs h s = record s {
  port = record (s.port) {
    status = available;
    event_flag = 0;
    io_head = (s.iocb s.port.io_head).next;
    operation = idle;
  };
  heap = h;
  inputs = inputs;
  outputs = (com1 + 1, clear_bit 2 mask % 256) ∷ (com1 + 1, 0) ∷ (com1, 2) ∷ s.outputs;
}

module _ (kmalloc : ℕ → Heap → Run (ℕ × Heap)) (functions : HeapFunctions) where
  interrupt_finish :
      (fuel p mask : ℕ) (inputs : List ℕ) (freed : Bool) (h : Heap) (s : Serial) (q : Queues)
      → IsSending s p
      → s.port.count ≡ pos s.port.counter
      → sys_free_mem functions s.port.io_head s.heap ≡ ok (freed, h)
      → s.inputs ≡ mask ∷ inputs
      → serial_output_interrupt kmalloc functions fuel s q ≡ (
          unblock_pcb fuel (s.iocb s.port.io_head).curr_proc q >>= λ q'.
          ok (finished mask inputs h s, q'))
  unfolding serial_output_interrupt
  interrupt_finish fuel p mask inputs freed h s q is all frees reads =
      let busy : not (is_write s.port.operation) ≡ false =
        ap (λ o. not (is_write o)) is.operation in
      let done : (s.port.event_flag == 1 && ltb_ℤ (pos s.port.counter) s.port.count) ≡ false =
        rw all (ground (arith, is.event_flag)) in
      simp (busy, done, is.queued, frees, reads) refl

  -- `k` output interrupts, one after the other
  unfoldable pub output_interrupts : (k fuel : ℕ) → Serial → Queues → Run (Serial × Queues)
  output_interrupts zero fuel s q = ok (s, q)
  output_interrupts (suc k) fuel s q =
      serial_output_interrupt kmalloc functions fuel s q >>= λ (s₁, q₁).
      output_interrupts k fuel s₁ q₁

-- the driver when `k` more bytes have been sent
abbrev pub sent : ℕ → ℕ → Serial → Serial
sent k p s = record s {
  port = record (s.port) { counter = s.port.counter + k };
  outputs = stream s.port.curr_dev s.bytes p s.port.counter k s.outputs;
}

IsSending-sent : (k p : ℕ) (s : Serial) → IsSending s p → IsSending (sent k p s) p
IsSending-sent k p s is = record {
  operation = is.operation;
  event_flag = is.event_flag;
  queued = is.queued;
  buffer = is.buffer;
}

module _ (p : ℕ) (s : Serial) where
  sent_none : s ≡ sent zero p s
  sent_none =
      ap (λ c. record s { port = record (s.port) { counter = c } }) (add_zero s.port.counter)
    where
      add_zero : (n : ℕ) → n ≡ n + 0
      add_zero n = omega arith

  sent_more : (k : ℕ) → sent k p (send_next p s) ≡ sent (suc k) p s
  sent_more k =
      ap
        (λ c. record s {
          port = record (s.port) { counter = c };
          outputs =
              stream s.port.curr_dev s.bytes p (s.port.counter + 1) k
                ((s.port.curr_dev, s.bytes (p + s.port.counter) % 256) ∷ (com1, 2) ∷ s.outputs);
        })
        (regroup s.port.counter k)
    where
      regroup : (c k : ℕ) → c + 1 + k ≡ c + suc k
      regroup c k = omega arith

module _ (kmalloc : ℕ → Heap → Run (ℕ × Heap)) (functions : HeapFunctions) where
  pub output_interrupts-send :
      (k fuel p n : ℕ) (s : Serial) (q : Queues)
      → IsSending s p
      → s.port.count ≡ pos n
      → s.port.counter + k ≤ n
      → output_interrupts kmalloc functions k fuel s q ≡ ok (sent k p s, q)
  unfolding output_interrupts
  output_interrupts-send zero fuel p n s q is size m = ap (λ t. ok (t, q)) (sent_none p s)
  output_interrupts-send (suc k) fuel p n s q is size m =
      ap
        (λ (r : Run (Serial × Queues)).
          r >>= λ (s₁, q₁). output_interrupts kmalloc functions k fuel s₁ q₁)
        (interrupt_send kmalloc functions fuel p s q is n size (omega arith))
      ∙ output_interrupts-send k fuel p n (send_next p s) q
          (record {
            operation = is.operation;
            event_flag = is.event_flag;
            queued = is.queued;
            buffer = is.buffer;
          })
          size (omega arith)
      ∙ ap (λ t. ok (t, q)) (sent_more p s k)

-- What the last interrupt leaves: the process of the request is in the ready queue.
pub record Transmitted (x : ℕ) (qs : List ℕ) (t : Serial) (q : Queues) (r : Serial × Queues)
    : Type 0 where
  pub driver : r.0 ≡ t
  pub readied : Inserted ready x qs (set_state x ready_state q) r.1

set_state-IsQueue :
    (x : ℕ) (q : Queues) (qs : List ℕ)
    → has x qs ≡ false
    → IsQueue ready q qs
    → IsQueue ready (set_state x ready_state q) qs
set_state-IsQueue x q qs out is = record {
  linked =
      Linked-frame q.pcb (set_state x ready_state q).pcb q.ready_head qs (λ y h. ground arith)
        is.linked;
  distinct = is.distinct;
}

insert_head-readied :
    (x : ℕ) (q : Queues) → insert_head ((set_state x ready_state q).pcb x).state ≡ some ready
unfolding insert_head
insert_head-readied x q = ground arith

unblock_pcb-Inserted :
    (fuel x : ℕ) (q : Queues) (qs : List ℕ)
    → 0 < x
    → IsQueue ready q qs
    → has x qs ≡ false
    → length qs ≤ fuel
    → Returns (Inserted ready x qs (set_state x ready_state q)) (unblock_pcb fuel x q)
unfolding unblock_pcb
unblock_pcb-Inserted fuel x q qs low is out m =
    let here : (x == null) ≡ false = ground arith in
    rw here (
      pcb_insert_lem fuel x ready (set_state x ready_state q) qs low (insert_head-readied x q)
        (set_state-IsQueue x q qs out is) out m)

-- A write of the first request, begun by `serial_write`, is carried through by output interrupts:
-- the interrupts for the bytes left send them to the device, each behind a byte 2 to COM1 and each
-- once, in the buffer's order; the interrupt after them makes the driver idle, takes the request
-- from the queue and its memory back, and puts the process that asked into the ready queue, by
-- priority. The process is not NULL and not in that queue, its queue's length is within the fuel,
-- the request's memory can be freed, and the port answers the reading of its mask.
pub output_interrupts-Transmitted :
    (kmalloc : ℕ → Heap → Run (ℕ × Heap)) (functions : HeapFunctions) (k fuel p x mask : ℕ)
    (inputs qs : List ℕ) (freed : Bool) (h : Heap) (s : Serial) (q : Queues)
    → IsSending s p
    → s.port.count ≡ pos (s.port.counter + k)
    → (s.iocb s.port.io_head).curr_proc ≡ x
    → 0 < x
    → IsQueue ready q qs
    → has x qs ≡ false
    → length qs ≤ fuel
    → sys_free_mem functions s.port.io_head s.heap ≡ ok (freed, h)
    → s.inputs ≡ mask ∷ inputs
    → Returns (Transmitted x qs (finished mask inputs h (sent k p s)) q) (
        output_interrupts kmalloc functions k fuel s q >>= λ (s₁, q₁).
        serial_output_interrupt kmalloc functions fuel s₁ q₁)
output_interrupts-Transmitted kmalloc functions k fuel p x mask inputs qs freed h s q is all owner
      low queue out m frees reads =
    rw
      (
        output_interrupts-send kmalloc functions k fuel p (s.port.counter + k) s q is all
            (omega arith),
        interrupt_finish kmalloc functions fuel p mask inputs freed h (sent k p s) q
            (IsSending-sent k p s is) all frees reads,
        owner,
      )
      (Returns-bind (unblock_pcb-Inserted fuel x q qs low queue out m)
        λ q' done. returns (record { driver = refl; readied = done }))
