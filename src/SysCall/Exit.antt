-- ===== src/SysCall/Exit.antt =====
-- The EXIT call of kernel/sys_call.c, with the heap functions that kernel/kmain.c installs.
use mpx.Base.{
  ℕ, ◌<◌, ◌≡◌, refl, ◌∙◌, ap, inl, inr, Bool, false, Bool-cases, some, List, ◌∷◌, arith, ◌==◌,
  length,
}
use mpx.Base.Int.{ℤ, pos}
use mpx.Base.Run.{Run, ok, fault, returned}
use mpx.Heap.{Heap, free_memory}
use mpx.Heap.Blocks.{Block, IsHeap}
use mpx.SysMem.{HeapFunctions}
use mpx.Pcb.{Pcb, Queues, ready, ready_state, set_next, pcb_remove}
use mpx.Pcb.Queue.{has}
use mpx.Pcb.Remove.{pcb_remove_lem}
use mpx.Pcb.Setup.{pcb_free}
use mpx.Pcb.Setup.Free.{pcb_free_faults}
use mpx.Serial.{null, exit}
use mpx.SysCall.{Kernel, op_code, with_queues, free_running, exit_case, serve, sys_call}
use mpx.SysCall.Idle.{IsRunning, remove_head-ready}

op_code-exit : (n : ℤ) → n ≡ pos 0 → op_code n ≡ some exit
unfolding op_code
op_code-exit n e = ground arith

set_next-name : (f : ℕ → Pcb) (p q v : ℕ) → (set_next f p v q).name ≡ (f q).name
set_next-name f p q v = ground arith

module _ (kmalloc : ℕ → Heap → Run (ℕ × Heap)) (functions : HeapFunctions) where
  free_running-fault :
      (s : Kernel)
      → pcb_free kmalloc functions s.global_pcb
          (record { queues = s.queues; heap = s.serial.heap; console = s.console })
        ≡ fault
      → free_running kmalloc functions s ≡ fault
  unfolding free_running
  free_running-fault s e = rw e refl

  -- behind the removal of the running process
  exit_case-removed :
      (fuel next : ℕ) (s : Kernel) (failed : Bool) (q : Queues)
      → 0 < s.global_pcb
      → pcb_remove fuel s.global_pcb s.queues ≡ ok (failed, q)
      → free_running kmalloc functions (with_queues s (record q { pcb = set_next q.pcb next null }))
        ≡ fault
      → exit_case kmalloc functions fuel next s ≡ fault
  unfolding exit_case
  exit_case-removed fuel next s failed q low e f =
      let here : (s.global_pcb == null) ≡ false = ground arith in
      elim (Bool-cases (next == null)) [
        | inl none_ready ↦ rw (here, e, none_ready) refl
        | inr some_ready ↦ rw (here, e, some_ready, f) refl
      ]

  sys_call-exit_case :
      (fuel c : ℕ) (s : Kernel)
      → (s.context c).eax ≡ pos 0
      → sys_call kmalloc functions fuel c s ≡ exit_case kmalloc functions fuel s.queues.ready_head s
  unfolding sys_call serve exit_case
  sys_call-exit_case fuel c s e = rw (op_code-exit (s.context c).eax e) refl

-- An EXIT call of a running process that has a name never returns, where the heap functions are those
-- of lib/mem.c on a heap that holds blocks, and the running process and all processes of the ready
-- queue, which may be empty, are in the state READY (none resumed or suspended): `sys_call` reads through
-- NULL, in the empty ready queue or while it frees the process. The fuel is beyond the queue and
-- the heap's blocks.
pub sys_call-exit_faults :
    (kmalloc : ℕ → Heap → Run (ℕ × Heap)) (functions : HeapFunctions) (fuel c g first : ℕ)
    (qs rest : List ℕ) (bs : List Block) (s : Kernel)
    → IsRunning s g qs
    → (s.context c).eax ≡ pos 0
    → length qs < fuel
    → functions.free_function ≡ some (free_memory fuel)
    → IsHeap s.serial.heap bs
    → length bs < fuel
    → (s.queues.pcb g).name ≡ first ∷ rest
    → 0 < first
    → sys_call kmalloc functions fuel c s ≡ fault
sys_call-exit_faults kmalloc functions fuel c g first qs rest bs s is call m set heap n named
      some_char =
    let low : 0 < s.global_pcb = omega (arith, is.running, is.nonnull) in
    let state : (s.queues.pcb s.global_pcb).state ≡ ready_state =
      ap (λ (p : ℕ). (s.queues.pcb p).state) is.running ∙ is.states g (ground arith) in
    let apart : has s.global_pcb qs ≡ false = ap (λ (p : ℕ). has p qs) is.running ∙ is.apart in
    let ((failed, q), e, gone) = returned (
      pcb_remove_lem fuel s.global_pcb s.queues ready qs low (remove_head-ready _ state) is.queue
        m) in
    let next = s.queues.ready_head in
    let name : (set_next q.pcb next null s.global_pcb).name ≡ first ∷ rest =
      set_next-name q.pcb next s.global_pcb null
      ∙ ap (λ (b : Pcb). b.name) (gone.outside s.global_pcb apart)
      ∙ ap (λ (p : ℕ). (s.queues.pcb p).name) is.running
      ∙ named in
    sys_call-exit_case kmalloc functions fuel c s call
    ∙ exit_case-removed kmalloc functions fuel next s failed q low e (
        free_running-fault kmalloc functions
          (with_queues s (record q { pcb = set_next q.pcb next null }))
          (pcb_free_faults kmalloc functions fuel s.global_pcb
            (record {
              queues = record q { pcb = set_next q.pcb next null };
              heap = s.serial.heap;
              console = s.console;
            })
            bs set heap n low first rest some_char name))
