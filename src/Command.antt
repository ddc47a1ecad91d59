-- ===== src/Command.antt =====
-- The process commands of user/commhand.c: delete_pcb, resume_pcb and suspend_pcb, and what all
-- commands share. A WRITE request adds its bytes to the console, blocks the command and lets other
-- processes run until the command goes on: what they and the kernel then have made of the process
-- queues and of the heap is a parameter. The name that a command is called with is not read. Arrays
-- are 20 bytes, filled by serial_poll.
pub mod Suspend
pub mod Line
pub mod Clock
pub mod Show
pub mod Texts
pub mod Dispatch
pub mod Priority
pub mod Load
use Prim.Native.String.{String}
use mpx.Base.{
  ℕ, zero, suc, Bool, true, ◌&&◌, ◌||◌, Option, none, some, List, [], ◌∷◌, ◌++◌, ltb, ◌==◌,
  if◌then◌else◌, drop, map,
}
use mpx.Base.Int.{ℤ, eqb_ℤ}
use mpx.Base.Text.{codes, with_nul}
use mpx.Base.Run.{Run, ok, fault, ◌>>=◌}
use mpx.Heap.{Heap}
use mpx.CString.{strtok, strlen}
use mpx.Pcb.{
  Queues, null, min_name_len, max_name_len, system_proc, suspend_state, resume_state, set_state,
  pcb_find, pcb_insert, pcb_remove,
}
use mpx.Serial.{Serial, serial_poll}

-- `console` is the bytes of the WRITE requests, the oldest first, `clock` the real time clock's
-- registers by number. `served bytes` gives the process queues and the heap when a WRITE request of
-- these bytes comes back, from those at the request.
pub record Session : Type 0 where
  pub queues : Queues
  pub serial : Serial
  pub console : List (List ℕ)
  pub clock : ℕ → ℕ
  pub served : List ℕ → Queues × Heap → Queues × Heap

-- `sys_req(WRITE, COM1, bytes, length)`, up to its return
unfoldable pub request : List ℕ → Session → Session
request bytes d =
    let after = d.served bytes (d.queues, d.serial.heap) in
    record d {
      queues = after.0;
      serial = record (d.serial) { heap = after.1 };
      console = d.console ++ bytes ∷ [];
    }

-- the requests one after the other
unfoldable pub send_all : List (List ℕ) → Session → Session
unfolding request
send_all [] d = d
send_all (text ∷ texts) d = send_all texts (request text d)

-- `sys_req(WRITE, COM1, text, strlen(text))`, and with `sizeof(text)`
unfoldable pub say : String → Session → Session
unfolding request
say text d = request (codes text) d

unfoldable pub prompt : String → Session → Session
unfolding request
prompt text d = request (with_nul text) d

-- an array of NUL bytes
abbrev pub zeros : ℕ → List ℕ
zeros zero = []
zeros (suc n) = 0 ∷ zeros n

-- the characters "\n\r\t "
abbrev pub separators : List ℕ
separators = 10 ∷ 13 ∷ 9 ∷ 32 ∷ []

-- The prompt and the line read: the array after `serial_poll`.
unfoldable pub ask : String → Session → Run (List ℕ × Session)
unfolding prompt
ask text d =
    let d₁ = prompt text d in
    serial_poll 20 (zeros 20) d₁.serial >>= λ (_, buf, port). ok (buf, record d₁ { serial = port })

-- The first word of the line, with the bytes behind it, or NULL.
unfoldable pub ask_name : Session → Run (Option (List ℕ) × Session)
unfolding ask
ask_name d = ask "Please enter the name of the PCB: " d >>= λ (buf, d₁).
    strtok (record { bytes = buf; tok_tmp = none }) (some 0) separators >>= λ (word, t).
    ok (elim word [ none ↦ none | some at ↦ some (drop at t.bytes) ], d₁)

-- `name == NULL || strlen(name) < MIN_NAME_LEN || strlen(name) > MAX_NAME_LEN`
unfoldable pub invalid_name : Option (List ℕ) → Run Bool
invalid_name none = ok true
invalid_name (some name) = strlen name >>= λ n. ok (ltb n min_name_len || ltb max_name_len n)

-- `pcb_find`, with the text that it sends before it returns NULL. A NULL name is read where there is
-- a process to compare it with.
unfoldable pub find_pcb : ℕ → Option (List ℕ) → Session → Run (ℕ × Session)
unfolding send_all
find_pcb fuel none d =
    if d.queues.ready_head == null && d.queues.suspended_head == null then ok (null, d) else fault
find_pcb fuel (some name) d =
    pcb_find fuel name d.queues >>= λ (p, texts). ok (p, send_all (map with_nul texts) d)

-- What the commands share: the user process of the name that is asked for, or NULL behind the
-- message that ends the command.
unfoldable pub choose : ℕ → (invalid missing protected : String) → Session → Run (ℕ × Session)
unfolding say ask_name invalid_name find_pcb
choose fuel invalid missing protected d = ask_name d >>= λ (name, d₁). invalid_name name >>= λ bad.
    if bad
    then ok (null, say invalid d₁)
    else (find_pcb fuel name d₁ >>= λ (p, d₂).
        if p == null
        then ok (null, say missing d₂)
        else if eqb_ℤ (d₂.queues.pcb p).class system_proc
        then ok (null, say protected d₂)
        else ok (p, d₂))

unfoldable pub delete_pcb : ℕ → Session → Run Session
unfolding choose say
delete_pcb fuel d =
    choose fuel "\nInvalid PCB name. \n" "\nPCB not found. \n"
      "\nSystem processes cannot be deleted. \n" d
    >>= λ (p, d₁).
        if p == null
        then ok d₁
        else (pcb_remove fuel p d₁.queues >>= λ (failed, q).
            let d₂ = record d₁ { queues = q } in
            ok (
              if failed
              then say "\nFailed to free PCB memory. \n" d₂
              else say "\nPCB deleted successfully. \n" d₂))

-- `found_pcb->state = st; pcb_insert(found_pcb);`
unfoldable pub requeue : ℕ → ℤ → ℕ → Queues → Run Queues
requeue fuel st p k = pcb_insert fuel p (set_state p st k)

-- that and the message
unfoldable pub move_to : ℕ → ℤ → String → ℕ → Session → Run Session
unfolding say requeue
move_to fuel st text p d =
    if p == null
    then ok d
    else (requeue fuel st p d.queues >>= λ q. ok (say text (record d { queues = q })))

unfoldable pub resume_pcb : ℕ → Session → Run Session
unfolding choose move_to
resume_pcb fuel d =
    choose fuel "Invalid process name. \n" "Process not found. \n"
      "\nSystem processes cannot be deleted. \n" d
    >>= λ (p, d₁). move_to fuel resume_state "Process resumed successfully. \n" p d₁

unfoldable pub suspend_pcb : ℕ → Session → Run Session
unfolding choose move_to
suspend_pcb fuel d =
    choose fuel "Invalid process name. \n" "Process not found. \n"
      "\nSystem processes cannot be deleted. \n" d
    >>= λ (p, d₁). move_to fuel suspend_state "Process suspended successfully. \n" p d₁
