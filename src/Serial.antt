-- ===== src/Serial.antt =====
-- kernel/serial.c and include/mpx/device.h: the serial driver. Port reads take the next byte of
-- `inputs`, whatever the port (what the hardware answers is the environment's choice; a run that
-- reads beyond the list does not end); port writes are recorded in `outputs`, the newest first.
pub mod Requests
pub mod Poll
pub mod Queue
pub mod Transmit
pub mod Write
use mpx.Base.{
  ℕ, zero, suc, ◌+◌, ◌-◌, ◌*◌, ◌/◌, ◌%◌, ◌^◌, Bool, true, false, not, ◌&&◌, ◌||◌, Option, none,
  some, List, [], ◌∷◌, ◌++◌, ltb, leb, ◌==◌, if◌then◌else◌, length, set, get_elem?,
}
use mpx.Base.Int.{ℤ, pos, negsuc, ltb_ℤ, eqb_ℤ}
use mpx.Base.Run.{Run, ok, fault, out_of_fuel, ◌>>=◌}
use mpx.Heap.{Heap}
use mpx.Pcb.{Queues, ready_state, set_state, pcb_insert}

abbrev pub null : ℕ
null = 0

abbrev pub com1 : ℕ
com1 = 0x3f8

abbrev pub com2 : ℕ
com2 = 0x2f8

abbrev pub com3 : ℕ
com3 = 0x3e8

abbrev pub com4 : ℕ
com4 = 0x2e8

pub data AllocStatus : Type 0 where
  available in_use : AllocStatus

pub data OpCode : Type 0 where
  exit idle read write : OpCode

abbrev pub is_idle : OpCode → Bool
is_idle idle = true
is_idle _ = false

abbrev pub is_read : OpCode → Bool
is_read read = true
is_read _ = false

abbrev pub is_write : OpCode → Bool
is_write write = true
is_write _ = false

abbrev pub is_in_use : AllocStatus → Bool
is_in_use in_use = true
is_in_use available = false

-- `buffer` is an address; `buf_index`, which nothing uses, is left out.
pub record Iocb : Type 0 where
  pub curr_proc : ℕ
  pub device : ℕ
  pub curr_op : OpCode
  pub buffer : ℕ
  pub buf_size : ℕ
  pub next : ℕ

-- `count` is a signed integer.
pub record Dcb : Type 0 where
  pub curr_dev : ℕ
  pub status : AllocStatus
  pub operation : OpCode
  pub event_flag : ℕ
  pub counter : ℕ
  pub count : ℤ
  pub ring_buffer : List ℕ
  pub ring_head : ℕ
  pub ring_tail : ℕ
  pub io_head : ℕ

-- The block that `serial_port` points to, `initialized`, the request blocks and the memory by
-- address, the heap that requests come from, and the ports.
pub record Serial : Type 0 where
  pub port : Dcb
  pub initialized : List Bool
  pub iocb : ℕ → Iocb
  pub bytes : ℕ → ℕ
  pub heap : Heap
  pub inputs : List ℕ
  pub outputs : List (ℕ × ℕ)

unfoldable pub outb : ℕ → ℕ → Serial → Serial
outb p v s = record s { outputs = (p, v % 256) ∷ s.outputs }

take_input : List ℕ → Serial → Run (ℕ × Serial)
take_input [] s = out_of_fuel
take_input (v ∷ vs) s = ok (v, record s { inputs = vs })

unfoldable pub inb : Serial → Run (ℕ × Serial)
unfolding take_input
inb s = take_input s.inputs s

-- `mask | (1 << k)` and `mask & ~(1 << k)`, with `bit` for `1 << k`
unfoldable pub set_bit : ℕ → ℕ → ℕ
set_bit bit mask = if mask / bit % 2 == 1 then mask else mask + bit

unfoldable pub clear_bit : ℕ → ℕ → ℕ
clear_bit bit mask = if mask / bit % 2 == 1 then mask - bit else mask

unfoldable pub serial_devno : ℕ → Option ℕ
serial_devno dev =
    if dev == com1
    then some 0
    else if dev == com2
    then some 1
    else if dev == com3
    then some 2
    else if dev == com4
    then some 3
    else none

-- `false` is the result 0, `true` is -1.
unfoldable pub serial_init : ℕ → Serial → Run (Bool × Serial)
unfolding serial_devno outb inb
serial_init dev s = elim (serial_devno dev) [
  | none ↦ ok (true, s)
  | some dno ↦
      let s₁ = outb (dev + 3) 0x03 (
        outb (dev + 1) 0x00
          (outb dev (115200 / 9600) (outb (dev + 3) 0x80 (outb (dev + 1) 0x00 s)))) in
      let s₂ = outb (dev + 4) 0x0b (outb (dev + 2) 0xc7 s₁) in
      inb s₂ >>= λ (_, s₃). ok (false, record s₃ { initialized = set s₃.initialized dno true })
]

-- `serial_open` at a block `old` from `sys_alloc_mem`, whose `ring_buffer` and `io_head` it does not
-- set. The speed is not 0 (the code divides by it). Installing the interrupt vector is in Boot.
unfoldable pub serial_open : ℕ → ℤ → Dcb → Serial → Run (ℤ × Serial)
unfolding outb inb clear_bit
serial_open dev speed old s =
    let opened = record old {
      count = pos 0;
      event_flag = 0;
      counter = 0;
      operation = idle;
      ring_head = 0;
      ring_tail = 15;
      status = available;
      curr_dev = dev;
    } in
    let s₁ = record s { port = opened; initialized = set s.initialized 0 true } in
    elim speed [
      | negsuc _ ↦ ok (negsuc 101, s₁)
      | pos rate ↦
          if not (dev == com1)
          then ok (negsuc 101, s₁)
          else if rate == 0
          then fault
          else (let s₂ = outb (com1 + 3) 0x03 (
                outb com1 (115200 / rate) (
                  outb (com1 + 1) (115200 % rate)
                    (outb (com1 + 3) 0x80 (outb (dev + 1) 0x00 s₁)))) in
              inb s₂ >>= λ (mask, s₃). ok (
                pos 0,
                outb (dev + 1) 0x01 (outb (dev + 4) 0x0f (outb 0x21 (clear_bit 0x10 mask) s₃)),
              ))
    ]

-- `cli` and `sti` are left out; the result is 0.
unfoldable pub serial_close : Serial → Run Serial
unfolding outb inb set_bit
serial_close s = inb s >>= λ (mask, s₁).
    ok (outb (com1 + 4) 0x03 (outb (com1 + 1) 0x01 (outb 0x21 (set_bit 8 mask) s₁)))

-- the loop of `serial_out`
unfoldable pub write_all : ℕ → List ℕ → Serial → Serial
unfolding outb
write_all dev [] s = s
write_all dev (c ∷ cs) s = write_all dev cs (outb dev c s)

-- `serial_out` of the bytes; `none` is the result -1, else the number of bytes.
unfoldable pub serial_out : ℕ → List ℕ → Serial → Option ℕ × Serial
unfolding serial_devno write_all
serial_out dev buffer s = elim (serial_devno dev) [
  | none ↦ (none, s)
  | some dno ↦ elim (get_elem? s.initialized dno) [
    | some true ↦ (some (length buffer), write_all dev buffer s)
    | _ ↦ (none, s)
  ]
]

-- `buffer[i] = v`, within the array
unfoldable pub put : List ℕ → ℕ → ℕ → Run (List ℕ)
put buffer i v = if ltb i (length buffer) then ok (set buffer i v) else fault

-- What `serial_poll` has done: the bytes read, the array, and what is left of the port.
pub record Polled : Type 0 where
  pub bytes_read : ℕ
  pub buffer : List ℕ
  pub inputs : List ℕ
  pub outputs : List (ℕ × ℕ)

-- `serial_poll` into an array, from `bytes_read` on. A byte is taken where the status read before
-- it has the bit DR. The index before a backspace at the line's start is SIZE_MAX.
unfoldable pub poll : ℕ → List ℕ → ℕ → List ℕ → List (ℕ × ℕ) → Run Polled
unfolding put
poll len buffer bytes_read [] out =
    if ltb bytes_read len
    then out_of_fuel
    else ok (record { bytes_read = bytes_read; buffer = buffer; inputs = []; outputs = out })
poll len buffer bytes_read (status ∷ []) out =
    if ltb bytes_read len
    then out_of_fuel
    else ok
        (record { bytes_read = bytes_read; buffer = buffer; inputs = status ∷ []; outputs = out })
poll len buffer bytes_read (status ∷ c ∷ inputs) out =
    let again = poll len buffer bytes_read (c ∷ inputs) out in
    let erased = λ (b : List ℕ).
      poll len b (bytes_read - 1) inputs ((com1, 8) ∷ (com1, 32) ∷ (com1, 8) ∷ (com1, c) ∷ out) in
    let more = λ (b : List ℕ). poll len b (bytes_read + 1) inputs ((com1, c) ∷ out) in
    if not (ltb bytes_read len)
    then ok (record {
      bytes_read = bytes_read;
      buffer = buffer;
      inputs = status ∷ c ∷ inputs;
      outputs = out;
    })
    else if status % 2 == 0
    then again
    else (put buffer bytes_read c >>= λ b.
        if c == 8 || c == 127
        then (if bytes_read == 0 then fault else (put b (bytes_read - 1) 0 >>= erased))
        else if c == 10 || c == 13
        then (put b (bytes_read + 1) 0 >>= λ b'. ok (record {
          bytes_read = bytes_read + 1;
          buffer = b';
          inputs = inputs;
          outputs = (com1, 10) ∷ (com1, c) ∷ out;
        }))
        else more b)

-- The bytes read, the array, and the driver.
unfoldable pub serial_poll : ℕ → List ℕ → Serial → Run (ℕ × List ℕ × Serial)
unfolding poll
serial_poll len buffer s = poll len buffer 0 s.inputs s.outputs >>= λ p.
    ok (p.bytes_read, p.buffer, record s { inputs = p.inputs; outputs = p.outputs })
