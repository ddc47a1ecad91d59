-- ===== src/Tests/DriverTests.antt =====
-- A request queued behind the one at 200, and the last two bytes of a write at 300.
use mpx.Base.{ℕ, ◌≡◌, refl, false, some, none, [], ◌∷◌, arith, ◌==◌, if◌then◌else◌}
use mpx.Base.Int.{pos}
use mpx.Base.Run.{Run, ok, Returns, ◌>>=◌}
use mpx.Heap.{Heap}
use mpx.SysMem.{HeapFunctions, sys_free_mem}
use mpx.Pcb.{Queues, ready}
use mpx.Pcb.Queue.{IsQueue}
use mpx.Serial.{available, in_use, idle, write, Iocb, Serial}
use mpx.Serial.Requests.{enqueue, serial_output_interrupt}
use mpx.Serial.Queue.{IsRequests, Enqueued, enqueue_lem}
use mpx.Serial.Transmit.{
  IsSending, finished, sent, output_interrupts, Transmitted, output_interrupts-Transmitted,
}
use mpx.Tests.PollTests.{typing}

abbrev a_write : Iocb
a_write = record {
  curr_proc = 7;
  device = 0x3f8;
  curr_op = write;
  buffer = 300;
  buf_size = 2;
  next = 0;
}

abbrev writing : Serial
writing = record (typing (3 ∷ []) []) {
  port = record {
    curr_dev = 0x3f8;
    status = in_use;
    operation = write;
    event_flag = 1;
    counter = 0;
    count = pos 2;
    ring_buffer = [];
    ring_head = 0;
    ring_tail = 15;
    io_head = 200;
  };
  iocb = λ p. a_write;
  bytes = λ p. if p == 300 then 104 else 105;
}

one_request : IsRequests writing (200 ∷ [])
one_request = record { chained = (refl, omega arith, refl); distinct = (refl, tt) }

enqueue_example : Returns (Enqueued 240 a_write (200 ∷ []) writing) (enqueue 1 240 a_write writing)
enqueue_example =
    enqueue_lem 240 a_write (omega arith) refl writing 1 (200 ∷ []) one_request refl (omega arith)

under_way : IsSending writing 300
under_way = record { operation = refl; event_flag = refl; queued = refl; buffer = refl }

abbrev nobody_ready : Queues
nobody_ready = record {
  pcb = λ p. record {
    name = [];
    class = pos 1;
    priority = pos 1;
    state = pos 0;
    stack_top = 0;
    next_pcb = 0;
    prev_pcb = 0;
  };
  ready_head = 0;
  blocked_head = 0;
  suspended_head = 0;
}

nobody-IsQueue : IsQueue ready nobody_ready []
nobody-IsQueue = record { linked = refl; distinct = tt }

abbrev no_kmalloc : ℕ → Heap → Run (ℕ × Heap)
no_kmalloc size h = ok (0, h)

abbrev freeing : HeapFunctions
freeing = record { malloc_function = none; free_function = some (λ ptr h. ok (false, h)) }

frees_all : sys_free_mem freeing 200 writing.heap ≡ ok (false, writing.heap)
unfolding sys_free_mem
frees_all = refl

output_interrupts-Transmitted_example :
    Returns (Transmitted 7 [] (finished 3 [] writing.heap (sent 2 300 writing)) nobody_ready) (
      output_interrupts no_kmalloc freeing 2 5 writing nobody_ready >>= λ (s₁, q₁).
      serial_output_interrupt no_kmalloc freeing 5 s₁ q₁)
output_interrupts-Transmitted_example =
    output_interrupts-Transmitted no_kmalloc freeing 2 5 300 7 3 [] [] false writing.heap writing
      nobody_ready under_way refl refl (omega arith) nobody-IsQueue refl (omega arith) frees_all
      refl

-- The same port, open and idle.
abbrev waiting_port : Serial
waiting_port = record writing {
  port = record (writing.port) {
    status = available;
    operation = idle;
    event_flag = 0;
    count = pos 0;
  };
}
