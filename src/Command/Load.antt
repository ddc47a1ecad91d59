-- ===== src/Command/Load.antt =====
-- The commands of user/commhand.c that make processes, load_r3 and alarm, with the context of
-- include/sys_call.h at a process's `stack_top`.
pub mod Contexts
pub mod Ready
pub mod Jobs
pub mod All
use mpx.Base.{
  ℕ, ◌+◌, Bool, true, false, ◌||◌, Option, none, some, List, [], ◌∷◌, ◌++◌, ◌==◌, if◌then◌else◌,
  drop, map, take,
}
use mpx.Base.Int.{ℤ, pos, pos_part, eqb_ℤ}
use mpx.Base.Run.{Run, ok, fault, ◌>>=◌}
use mpx.Base.Text.{codes, with_nul}
use mpx.Heap.{Heap}
use mpx.SysMem.{HeapFunctions}
use mpx.CString.{strtok, atoi}
use mpx.Pcb.{null, pcb_insert}
use mpx.Pcb.Setup.{pcb_setup}
use mpx.Command.{Session, request, say, ask, separators, find_pcb}
use mpx.Command.Clock.{rtc_write, get_time, at, pair, out_of_range}

pub record Context : Type 0 where
  pub ds : ℕ
  pub es : ℕ
  pub fs : ℕ
  pub gs : ℕ
  pub ss : ℕ
  pub eax : ℕ
  pub ebx : ℕ
  pub ecx : ℕ
  pub edx : ℕ
  pub esp : ℕ
  pub ebp : ℕ
  pub esi : ℕ
  pub edi : ℕ
  pub eip : ℕ
  pub cs : ℕ
  pub flags : ℕ

-- The commands' state and the contexts by address.
pub record Machine : Type 0 where
  pub session : Session
  pub context : ℕ → Context

-- `memset(new_context, 0, sizeof(struct context))`, and with `sizeof` of a pointer, 4 bytes
abbrev pub clear_context : Bool → Context → Context
clear_context false c = record c { ds = 0 }
clear_context true c = record {
  ds = 0;
  es = 0;
  fs = 0;
  gs = 0;
  ss = 0;
  eax = 0;
  ebx = 0;
  ecx = 0;
  edx = 0;
  esp = 0;
  ebp = 0;
  esi = 0;
  edi = 0;
  eip = 0;
  cs = 0;
  flags = 0;
}

-- where `stack` stands in the block at `p`
abbrev pub stack_of : ℕ → ℕ
stack_of p = p + 64

-- The assignments after `memset`, at the context that `stack_top` of the block `p` points to.
unfoldable pub set_context : (whole : Bool) → (p entry : ℕ) → Machine → Machine
set_context whole p entry m =
    let top = (m.session.queues.pcb p).stack_top in
    let c = record (clear_context whole (m.context top)) {
      cs = 0x08;
      ds = 0x10;
      es = 0x10;
      fs = 0x10;
      gs = 0x10;
      ss = 0x10;
      ebp = stack_of p;
      esp = top;
      eip = entry;
      flags = 0x0202;
    } in
    record m { context = λ a. if a == top then c else m.context a }

-- an index into an array, or NULL, as the text it points to; and `atoi` of that
abbrev from_index : Option ℕ → List ℕ → Option (List ℕ)
from_index none buf = none
from_index (some i) buf = some (drop i buf)

unfoldable number_at : Option (List ℕ) → Run ℤ
number_at none = fault
number_at (some text) = atoi text

module _ (kmalloc : ℕ → Heap → Run (ℕ × Heap)) (functions : HeapFunctions) where
  -- `pcb_setup` in the commands' state. The message of its `pcb_find` for a name that no process of a
  -- suspended queue with processes has is only added to the console.
  unfoldable pub setup :
      (fuel : ℕ) → Option (List ℕ) → (class priority : ℤ) → Session → Run (ℕ × Session)
  setup fuel name class priority d =
      pcb_setup kmalloc functions fuel name class priority
        (record { queues = d.queues; heap = d.serial.heap; console = [] })
      >>= λ (p, m). ok (
        p,
        record d {
          queues = m.queues;
          serial = record (d.serial) { heap = m.heap };
          console = d.console ++ map with_nul m.console;
        },
      )

  -- A process made, its context set, and the process inserted: a NULL from `pcb_setup` is not looked at.
  unfoldable pub load :
      (fuel : ℕ)
      → (whole : Bool) → List ℕ
      → (class priority : ℤ) → (entry : ℕ) → Machine
      → Run Machine
  unfolding setup set_context
  load fuel whole name class priority entry m =
      setup fuel (some name) class priority m.session >>= λ (p, d).
      if p == null
      then fault
      else (let m₁ = set_context whole p entry (record m { session = d }) in
          pcb_insert fuel p m₁.session.queues >>= λ q.
          ok (record m₁ { session = record (m₁.session) { queues = q } }))

  -- `proc` gives the addresses of proc1 to proc5.
  unfoldable pub load_r3 : (fuel : ℕ) → (proc : ℕ → ℕ) → Machine → Run Machine
  unfolding load
  load_r3 fuel proc m = load fuel true (with_nul "process1") (pos 1) (pos 1) (proc 1) m >>= λ m₁.
      load fuel false (with_nul "process2") (pos 1) (pos 2) (proc 2) m₁ >>= λ m₂.
      load fuel false (with_nul "process3") (pos 1) (pos 3) (proc 3) m₂ >>= λ m₃.
      load fuel false (with_nul "process4") (pos 1) (pos 4) (proc 4) m₃ >>= λ m₄.
      load fuel false (with_nul "process5") (pos 1) (pos 5) (proc 5) m₄

  -- `pcb_setup` of a NULL name returns NULL.
  unfoldable load_named : (fuel : ℕ) → Option (List ℕ) → (entry : ℕ) → Machine → Run Machine
  unfolding load
  load_named fuel none entry m = fault
  load_named fuel (some name) entry m = load fuel true name (pos 1) (pos 1) entry m

  -- The part of `alarm` behind the two questions: `at_time` is the index that `input_time` points to,
  -- in the array that by now holds the name.
  unfoldable pub set_alarm :
      (fuel entry : ℕ)
      → (idle exit : Machine → Run Machine) → (junk : List ℕ) → (at_time : Option ℕ)
      → (name : Option ℕ) → (buf : List ℕ) → Machine
      → Run Machine
  unfolding get_time pair at rtc_write load load_named number_at say request find_pcb
  set_alarm fuel entry idle exit junk at_time name buf m =
      let name_text = from_index name buf in
      find_pcb fuel name_text m.session >>= λ (p, d).
      let d₁ = if p == null then d else request (with_nul "\nName already in use:") d in
      get_time kmalloc functions d₁ >>= λ (shown, d₂). number_at shown >>= λ get_time_int.
      number_at (from_index at_time buf) >>= λ alarm_time_int. pair buf 0 1 >>= λ hour.
      pair buf 3 7 >>= λ minutes. at buf 6 >>= λ s. atoi (s ∷ junk) >>= λ seconds.
      if out_of_range 0 23 hour || out_of_range 0 59 minutes || out_of_range 0 59 seconds
      then ok (record m { session = say "\nInvalid time input. \n" d₂ })
      else (let d₃ = say "\nTime set successfully. \n" (
            rtc_write 1 (pos_part seconds)
              (rtc_write 3 (pos_part minutes) (rtc_write 5 (pos_part hour) d₂))) in
          load_named fuel name_text entry (record m { session = d₃ }) >>= λ m₁. idle m₁ >>= λ m₂.
          if eqb_ℤ get_time_int alarm_time_int
          then exit (record m₂ { session = request (take 4 (codes "ALARM")) m₂.session })
          else ok m₂)

  -- `entry` is the address of `alarm` itself; `idle` and `exit` are the requests.
  unfoldable pub alarm :
      (fuel entry : ℕ)
      → (idle exit : Machine → Run Machine) → (junk : List ℕ) → Machine
      → Run Machine
  unfolding ask set_alarm
  alarm fuel entry idle exit junk m =
      ask "\nPlease enter the time of the alarm (HH:MM:SS): " m.session >>= λ (first, d₁).
      strtok (record { bytes = first; tok_tmp = none }) (some 0) separators >>= λ (at_time, _).
      ask "\nPlease enter the name of your alarm: " d₁ >>= λ (second, d₂).
      strtok (record { bytes = second; tok_tmp = none }) (some 0) separators >>= λ (name, t).
      set_alarm fuel entry idle exit junk at_time name t.bytes (record m { session = d₂ })
