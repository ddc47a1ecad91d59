-- ===== src/SysCall.antt =====
-- The system call handler of kernel/sys_call.c. A context is known by its address; the registers
-- that the handler reads are eax to edx. Saving and loading registers is the assembly's work.
pub mod Idle
pub mod Fair
pub mod First
pub mod Exit
pub mod Request
pub mod Write
use Prim.Native.String.{String}
use mpx.Base.{
  ℕ, zero, suc, ◌+◌, Bool, true, false, not, ◌&&◌, ◌||◌, Option, none, some, List, [], ◌∷◌, ◌==◌,
  if◌then◌else◌,
}
use mpx.Base.Int.{ℤ, pos, negsuc, eqb_ℤ}
use mpx.Base.Run.{Run, ok, fault, out_of_fuel, ◌>>=◌}
use mpx.Heap.{Heap}
use mpx.SysMem.{HeapFunctions}
use mpx.Pcb.Setup.{Processes, pcb_free}
use mpx.Pcb.{
  Pcb, Queues, null, update, set_next, set_state, pcb_insert, pcb_remove, ready_state,
  blocked_state,
}
use mpx.Serial.{OpCode, exit, idle, read, write, Serial}
use mpx.Serial.Requests.{io_scheduler}

pub record Context : Type 0 where
  pub eax : ℤ
  pub ebx : ℕ
  pub ecx : ℕ
  pub edx : ℕ

-- The queues, the driver with the heap, the text sent to the console, the two globals of
-- kernel/sys_call.c, and the contexts by address.
pub record Kernel : Type 0 where
  pub queues : Queues
  pub serial : Serial
  pub console : List String
  pub global_pcb : ℕ
  pub initial_context : ℕ
  pub context : ℕ → Context

-- `op_code` by number; any other number is no operation.
unfoldable pub op_code : ℤ → Option OpCode
op_code n =
    if eqb_ℤ n (pos 0)
    then some exit
    else if eqb_ℤ n (pos 1)
    then some idle
    else if eqb_ℤ n (pos 2)
    then some read
    else if eqb_ℤ n (pos 3)
    then some write
    else none

abbrev pub with_queues : Kernel → Queues → Kernel
with_queues s q = record s { queues = q }

-- `global_pcb->stack_top = (unsigned char *)current_context; global_pcb->state = st`
unfoldable pub save_running : ℕ → ℤ → Kernel → Run Kernel
save_running current_context st s =
    if s.global_pcb == null
    then fault
    else ok (
        with_queues s (record (s.queues) {
          pcb =
              update s.queues.pcb s.global_pcb
                (record (s.queues.pcb s.global_pcb) { stack_top = current_context; state = st });
        }))

-- `pcb_insert(global_pcb)`
unfoldable pub insert_running : ℕ → Kernel → Run Kernel
insert_running fuel s = pcb_insert fuel s.global_pcb s.queues >>= λ q. ok (with_queues s q)

-- What is behind the `switch`: `next` is the head of the ready queue from before it.
unfoldable pub dispatch : (fuel next : ℕ) → Kernel → Run (ℕ × Kernel)
dispatch fuel next s =
    if next == null
    then ok (s.initial_context, s)
    else (pcb_remove fuel next s.queues >>= λ (_, q).
        let f = set_next q.pcb next null in
        let f' = update f next (record (f next) { state = ready_state }) in
        ok ((f' next).stack_top, record s { queues = record q { pcb = f' }; global_pcb = next }))

-- `case IDLE`
unfoldable pub idle_case : (fuel next current_context : ℕ) → Kernel → Run (ℕ × Kernel)
idle_case fuel next current_context s =
    let s₁ =
      if s.initial_context == null then record s { initial_context = current_context } else s in
    if next == null
    then ok (current_context, s₁)
    else if not (s₁.global_pcb == null)
    then (save_running current_context ready_state s₁ >>= λ s₂.
        insert_running fuel s₂ >>= λ s₃. dispatch fuel next s₃)
    else dispatch fuel next s₁

module _ (kmalloc : ℕ → Heap → Run (ℕ × Heap)) (functions : HeapFunctions) where
  -- The body of `case WRITE` and of `case READ`, which are the same text.
  unfoldable pub request_case : (fuel current_context : ℕ) → OpCode → Kernel → Run Kernel
  request_case fuel current_context operation s = do
    s₁ ← save_running current_context blocked_state s
    let registers = s₁.context current_context
    port ←
        io_scheduler kmalloc functions fuel s₁.global_pcb registers.ebx registers.ecx registers.edx
          operation s₁.serial
    insert_running fuel (record s₁ { serial = port })

  -- `pcb_free(global_pcb)`
  unfoldable pub free_running : Kernel → Run Kernel
  free_running s =
      pcb_free kmalloc functions s.global_pcb
        (record { queues = s.queues; heap = s.serial.heap; console = s.console })
      >>= λ (_, m). ok (record s {
        queues = m.queues;
        serial = record (s.serial) { heap = m.heap };
        console = m.console;
      })

  -- `case EXIT`
  unfoldable pub exit_case : (fuel next : ℕ) → Kernel → Run (ℕ × Kernel)
  exit_case fuel next s =
      if not (s.global_pcb == null)
      then (pcb_remove fuel s.global_pcb s.queues >>= λ (_, q).
          if next == null
          then fault
          else (free_running (with_queues s (record q { pcb = set_next q.pcb next null })) >>= λ s₁.
              ok (s₁.initial_context, record s₁ { global_pcb = null })))
      else dispatch fuel next s

  -- The `switch`: `case WRITE` falls through to `case READ`, and that to `case IDLE`.
  unfoldable pub serve : (fuel next current_context : ℕ) → Option OpCode → Kernel → Run (ℕ × Kernel)
  serve fuel next current_context (some write) s = do
    s₁ ← request_case fuel current_context write s
    s₂ ← request_case fuel current_context write s₁
    idle_case fuel next current_context s₂
  serve fuel next current_context (some read) s = do
    s₁ ← request_case fuel current_context read s
    idle_case fuel next current_context s₁
  serve fuel next current_context (some idle) s = idle_case fuel next current_context s
  serve fuel next current_context (some exit) s = exit_case fuel next s
  serve fuel next current_context none s =
      let registers = s.context current_context in
      ok (
        current_context,
        record s {
          context = λ c.
              if c == current_context then record registers { eax = negsuc 0 } else s.context c;
        },
      )

  unfoldable pub sys_call : (fuel current_context : ℕ) → Kernel → Run (ℕ × Kernel)
  sys_call fuel current_context s =
      serve fuel s.queues.ready_head current_context (op_code (s.context current_context).eax) s
