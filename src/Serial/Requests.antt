-- ===== src/Serial/Requests.antt =====
-- The interrupt-driven half of kernel/serial.c: reads and writes, the queue of requests, and the
-- interrupt handlers. `serial_port` is not NULL.
use mpx.Base.{
  ℕ, zero, suc, ◌+◌, ◌-◌, ◌%◌, ◌^◌, Bool, true, false, not, ◌&&◌, ◌||◌, some, List, [], ◌∷◌, ltb,
  ◌==◌, if◌then◌else◌, length, get_elem?,
}
use mpx.Base.Int.{ℤ, pos, negsuc, ltb_ℤ}
use mpx.Base.Run.{Run, ok, fault, out_of_fuel, ◌>>=◌}
use mpx.Heap.{Heap}
use mpx.SysMem.{HeapFunctions, sys_alloc_mem, sys_free_mem}
use mpx.Pcb.{Queues, ready_state, set_state, pcb_insert}
use mpx.Serial.{
  null, com1, available, OpCode, idle, read, write, is_idle, is_read, is_write, is_in_use, Iocb,
  Dcb, Serial, outb, inb, set_bit, clear_bit,
}

-- The copying loop of `serial_read`: `cells` is the rest of the ring buffer from `buffer_index` on,
-- `room` what is left of the request. It returns the bytes copied, the cells afterwards, and whether
-- a new-line was met.
unfoldable pub copy_ring : (room : ℕ) (cells : List ℕ) → Run (List ℕ × List ℕ × Bool)
copy_ring zero cells = ok ([], cells, false)
copy_ring (suc room) [] = fault
copy_ring (suc room) (c ∷ cells) =
    let rest = copy_ring room cells in
    if c == 0
    then ok ([], c ∷ cells, false)
    else if c == 10
    then ok ([], 0 ∷ cells, true)
    else (rest >>= λ (copied, left, line). ok (c ∷ copied, 0 ∷ left, line))

-- the bytes `cs` at the address `p` on
pub store_bytes : ℕ → List ℕ → (ℕ → ℕ) → ℕ → ℕ
store_bytes p [] f = f
store_bytes p (c ∷ cs) f = store_bytes (p + 1) cs (λ q. if p == q then c else f q)

set_port : Dcb → Serial → Serial
set_port d s = record s { port = d }

unfoldable pub serial_read : (buf len : ℕ) → Serial → Run (ℤ × Serial)
unfolding copy_ring store_bytes set_port
serial_read buf len s =
    if is_in_use s.port.status
    then ok (negsuc 300, s)
    else if buf == null
    then ok (negsuc 301, s)
    else if len == 0
    then ok (negsuc 302, s)
    else if not (is_idle s.port.operation)
    then ok (negsuc 303, s)
    else (copy_ring len s.port.ring_buffer >>= λ (copied, left, line).
        let s₁ = record s { bytes = store_bytes buf copied s.bytes } in
        let finished = line || not (ltb (length copied) len) in
        ok (
          pos 0,
          if finished
              then set_port (record s.port { ring_buffer = left; operation = idle; event_flag = 1 })
                  s₁
              else set_port (record s.port { ring_buffer = left; operation = read; event_flag = 0 })
                  s₁,
        ))

-- a `size_t` assigned to an `int` of 32 bits
unfoldable pub int_of_size : ℕ → ℤ
int_of_size len = let n = len % 2 ^ 32 in if ltb n (2 ^ 31) then pos n else negsuc (2 ^ 32 - n - 1)

-- `len < 0` never holds of a `size_t`. A missing entry of `initialized` counts as 0.
unfoldable pub serial_write : (dev buf len : ℕ) → Serial → Run (ℤ × Serial)
unfolding outb inb set_bit set_port int_of_size
serial_write dev buf len s =
    if is_in_use s.port.status
    then ok (negsuc 403, s)
    else if buf == null
    then ok (negsuc 401, s)
    else elim (get_elem? s.initialized 0) [
      | some true ↦
          if is_idle s.port.operation
          then (let s₁ =
                set_port
                  (record s.port {
                    operation = write;
                    event_flag = 1;
                    counter = 0;
                    count = int_of_size len;
                  })
                  s in
              inb s₁ >>= λ (mask, s₂).
              let s₃ =
                outb dev (s₂.bytes buf)
                  (outb (dev + 1) (set_bit 2 mask) (outb (dev + 1) 0x00 s₂)) in
              ok (pos 0, set_port (record s₃.port { counter = 1 }) s₃))
          else ok (negsuc 403, s)
      | _ ↦ ok (negsuc 400, s)
    ]

abbrev pub update : (ℕ → Iocb) → ℕ → Iocb → ℕ → Iocb
update f p x q = if p == q then x else f q

-- `p->next = next`
abbrev pub set_next : (ℕ → Iocb) → ℕ → ℕ → ℕ → Iocb
set_next f p next = update f p (record (f p) { next = next })

-- The walk of `io_scheduler` to the last request, and `iter->next = temp`.
unfoldable pub append_request : ℕ → (iter temp : ℕ) → (ℕ → Iocb) → Run (ℕ → Iocb)
append_request zero iter temp f = out_of_fuel
append_request (suc fuel) iter temp f =
    let rest = append_request fuel (f iter).next temp f in
    if (f iter).next == null then ok (set_next f iter temp) else rest

-- The part of `io_scheduler` that puts the request `temp` at the end of the queue.
unfoldable pub enqueue : ℕ → (temp : ℕ) → Iocb → Serial → Run Serial
unfolding append_request
enqueue fuel temp request s =
    let f = update s.iocb temp request in
    if s.port.io_head == null
    then ok (record s { iocb = f; port = record (s.port) { io_head = temp } })
    else (append_request fuel s.port.io_head temp f >>= λ g.
        ok (record s { iocb = set_next g temp null }))

-- `sizeof(iocb)` on the 32-bit target
abbrev pub iocb_bytes : ℕ
iocb_bytes = 28

-- `io_scheduler` behind the request's allocation
unfoldable pub start_request : (fuel temp global_pcb dev buf len : ℕ) → OpCode → Serial → Run Serial
unfolding serial_read serial_write enqueue
start_request fuel temp global_pcb dev buf len operation s =
    if temp == null
    then fault
    else (let request : Iocb = record {
      curr_proc = global_pcb;
      device = dev;
      curr_op = operation;
      buffer = buf;
      buf_size = len;
      next = null;
    } in
        enqueue fuel temp request s >>= λ s₁.
        if is_idle s₁.port.operation
        then elim operation [
          | write ↦ (serial_write dev buf len s₁ >>= λ (_, s₂). ok s₂)
          | read ↦ (serial_read buf len s₁ >>= λ (_, s₂). ok s₂)
          | _ ↦ ok s₁
        ]
        else ok s₁)

-- `unblock_pcb` of user/commhand.c
unfoldable pub unblock_pcb : ℕ → ℕ → Queues → Run Queues
unblock_pcb fuel pcb k =
    if pcb == null then fault else pcb_insert fuel pcb (set_state pcb ready_state k)

unfoldable pub serial_input_interrupt : Serial → Serial
unfolding outb
serial_input_interrupt s = if is_read s.port.operation then outb com1 0x02 s else s

module _ (kmalloc : ℕ → Heap → Run (ℕ × Heap)) (functions : HeapFunctions) where
  -- `global_pcb` is the running process.
  unfoldable pub io_scheduler : (fuel global_pcb dev buf len : ℕ) → OpCode → Serial → Run Serial
  unfolding sys_alloc_mem start_request
  io_scheduler fuel global_pcb dev buf len operation s =
      if not (dev == com1) || buf == null
      then ok s
      else (sys_alloc_mem kmalloc functions iocb_bytes s.heap >>= λ (temp, h).
          start_request fuel temp global_pcb dev buf len operation (record s { heap = h }))

  unfoldable pub serial_output_interrupt : ℕ → Serial → Queues → Run (Serial × Queues)
  unfolding outb inb clear_bit unblock_pcb sys_free_mem set_port
  serial_output_interrupt fuel s k =
      if not (is_write s.port.operation)
      then ok (s, k)
      else (let s₁ = outb com1 0x02 s in
          if s.port.event_flag == 1 && ltb_ℤ (pos s.port.counter) s.port.count
          then (if s.port.io_head == null
              then fault
              else (let c = s₁.bytes ((s₁.iocb s.port.io_head).buffer + s.port.counter) in
                  let s₂ = outb s.port.curr_dev c s₁ in
                  ok (set_port (record s₂.port { counter = s.port.counter + 1 }) s₂, k)))
          else (if s.port.io_head == null
              then fault
              else (let mark_head = s₁.iocb s.port.io_head in
                  let s₂ =
                    set_port
                      (record s₁.port {
                        status = available;
                        event_flag = 0;
                        io_head = mark_head.next;
                        operation = idle;
                      })
                      s₁ in
                  unblock_pcb fuel mark_head.curr_proc k >>= λ k₁.
                  sys_free_mem functions s.port.io_head s₂.heap >>= λ (_, h).
                  inb (record s₂ { heap = h }) >>= λ (mask, s₃).
                  ok (outb (com1 + 1) (clear_bit 2 mask) (outb (com1 + 1) 0x00 s₃), k₁))))

  -- The line status and modem status reads of kinds 6 and 0 use a port number made from a pointer.
  unfoldable pub serial_interrupt : ℕ → Serial → Queues → Run (Serial × Queues)
  unfolding outb inb serial_input_interrupt serial_output_interrupt
  serial_interrupt fuel s k = do
    (id, s₁) ← inb s
    (s₂, k₁) ← elim (id % 8 == 2) [
      | true ↦ serial_output_interrupt fuel s₁ k
      | false ↦ elim (id % 8 == 4) [
        | true ↦ ok (serial_input_interrupt s₁, k)
        | false ↦ elim (id % 8 == 0 || id % 8 == 6) [
          | true ↦ (inb s₁ >>= λ (_, s₂). ok (s₂, k))
          | false ↦ ok (s₁, k)
        ]
      ]
    ]
    ok (outb 0x20 0x20 s₂, k₁)
