-- ===== src/Command/Show.antt =====
-- The show commands of user/commhand.c: show_ready, show_all and show_pcb.
use mpx.Base.{ℕ, zero, suc, ◌+◌, ◌-◌, ◌%◌, List, [], ◌∷◌, ◌==◌, if◌then◌else◌, take}
use mpx.Base.Int.{ℤ, pos, negsuc, eqb_ℤ}
use mpx.Base.Run.{Run, ok, fault, out_of_fuel, ◌>>=◌}
use mpx.Base.Text.{codes}
use mpx.CString.{strlen}
use mpx.CString.Itoa.{itoa}
use mpx.Pcb.{null, user_proc, ready_state, blocked_state, suspend_state, resume_state}
use mpx.Command.{Session, request, say, send_all, ask_name, invalid_name, find_pcb}

-- `char priority_char = '0' + current_pcb->priority;`
unfoldable pub priority_char : ℤ → ℕ
priority_char (pos n) = (48 + n) % 256
priority_char (negsuc n) = (48 + (255 - n % 256)) % 256

-- "User" or "System", with the length of "User" for both
unfoldable pub class_text : ℤ → List ℕ
class_text class = take 4 (if eqb_ℤ class user_proc then codes "User" else codes "System")

-- No request for another state.
unfoldable pub state_text : ℤ → List (List ℕ)
state_text state =
    if eqb_ℤ state ready_state
    then codes "READY" ∷ []
    else if eqb_ℤ state blocked_state
    then codes "BLOCKED" ∷ []
    else if eqb_ℤ state suspend_state
    then codes "SUSPENDED" ∷ []
    else if eqb_ℤ state resume_state
    then codes "RESUMED" ∷ []
    else []

-- The loop's body for the process `p`: each field is read when the requests before its own are back.
unfoldable pub show_process : ℕ → Session → Run Session
unfolding class_text state_text priority_char say send_all
show_process p d =
    let d₁ = say "\nName: " d in
    let name = (d₁.queues.pcb p).name in
    strlen name >>= λ n.
    let d₂ = say "\nClass: " (request (take n name) d₁) in
    let d₃ = say "\nState: " (request (class_text (d₂.queues.pcb p).class) d₂) in
    let d₄ = say "\nPriority: " (send_all (state_text (d₃.queues.pcb p).state) d₃) in
    ok (say "\n" (request (priority_char (d₄.queues.pcb p).priority ∷ []) d₄))

-- The loop over the `next_pcb` pointers, the next one read behind the body.
unfoldable pub show_from : (fuel : ℕ) → ℕ → Session → Run Session
unfolding show_process
show_from zero p d = out_of_fuel
show_from (suc fuel) p d =
    let rest = show_process p d >>= λ d₁. show_from fuel (d₁.queues.pcb p).next_pcb d₁ in
    if p == null then ok d else rest

unfoldable pub show_ready : (fuel : ℕ) → Session → Run Session
unfolding say
show_ready fuel d =
    show_from fuel d.queues.ready_head
      (if d.queues.ready_head == null then say "\nThere are no processes currently ready." d else d)

-- The three heads are read before the loops.
unfoldable pub show_all : (fuel : ℕ) → Session → Run Session
show_all fuel d =
    let k = d.queues in
    show_from fuel k.ready_head d >>= λ d₁.
    show_from fuel k.blocked_head d₁ >>= λ d₂. show_from fuel k.suspended_head d₂

-- `itoa(v, text, 10)` and the text's `strlen` bytes
unfoldable pub number_text : (fuel : ℕ) → ℤ → List ℕ → Run (List ℕ)
number_text fuel v text =
    itoa fuel v 10 text >>= λ written. strlen written >>= λ n. ok (take n written)

-- show_pcb, with what its three arrays of 20 bytes hold before. It reads the process that
-- pcb_find returned also where that is NULL.
unfoldable pub show_pcb :
    (fuel : ℕ) → (class_str state_str priority_str : List ℕ) → Session → Run Session
unfolding ask_name invalid_name find_pcb say number_text send_all
show_pcb fuel class_str state_str priority_str d = ask_name d >>= λ (name, d₁).
    invalid_name name >>= λ bad.
    if bad
    then ok (say "\nInvalid PCB name. \n" d₁)
    else (find_pcb fuel name d₁ >>= λ (p, d₂).
        let found = d₂.queues.pcb p in
        if p == null
        then fault
        else (number_text fuel found.class class_str >>= λ class.
            number_text fuel found.state state_str >>= λ state.
            number_text fuel found.priority priority_str >>= λ priority.
            let d₃ = send_all (codes "\n" ∷ codes "Name: " ∷ []) d₂ in
            ok (
              send_all
                (take 50 (d₃.queues.pcb p).name
                  ∷ codes "\n"
                  ∷ codes "Class: "
                  ∷ class
                  ∷ codes "\n"
                  ∷ codes "State: "
                  ∷ state
                  ∷ codes "\n"
                  ∷ codes "Priority: "
                  ∷ priority
                  ∷ codes "\n"
                  ∷ [])
                d₃)))
