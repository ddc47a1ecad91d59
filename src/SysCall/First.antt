-- ===== src/SysCall/First.antt =====
-- The first IDLE call, from kmain: no process is running yet.
use mathlib.Core.Path.{subst}
use mpx.Base.{
  ℕ, ◌<◌, ◌≡◌, refl, ◌∙◌, ap, sym, true, false, List, ◌∷◌, arith, ◌==◌, Bool-cases, inl, inr,
  length,
}
use mpx.Base.Int.{pos}
use mpx.Base.Run.{Run, Returns, Returns-mono}
use mpx.Heap.{Heap}
use mpx.SysMem.{HeapFunctions}
use mpx.Pcb.{null, ready, ready_state}
use mpx.Pcb.Queue.{has, IsQueue, erase}
use mpx.SysCall.{Kernel, dispatch, idle_case, sys_call}
use mpx.SysCall.Idle.{IsRunning, dispatch-Dispatched, sys_call-idle}

idle_case-first :
    (fuel c n : ℕ) (s : Kernel)
    → s.global_pcb ≡ null
    → s.initial_context ≡ null
    → 0 < n
    → idle_case fuel n c s ≡ dispatch fuel n (record s { initial_context = c })
unfolding idle_case
idle_case-first fuel c n s nobody early low =
    let there : (n == null) ≡ false = ground arith in rw (early, there, nobody) refl

erase-first : (n : ℕ) (qs : List ℕ) → erase n (n ∷ qs) ≡ qs
unfolding erase
erase-first n qs = ground arith

-- what the first IDLE call leaves: the context to resume, and the process that runs
pub record FirstRun (c n : ℕ) (qs : List ℕ) (s : Kernel) (r : ℕ × Kernel) : Type 0 where
  pub resumed : r.0 ≡ (s.queues.pcb n).stack_top
  pub after : IsRunning r.1 n qs
  pub kept_context : r.1.initial_context ≡ c
  pub same_contexts : r.1.context ≡ s.context

-- The IDLE call where no process runs yet and no initial context is kept, with `n` at the ready
-- queue's head and all of its processes in the ready state: with fuel beyond the queue's length it
-- returns the context that `n` has saved, `n` runs, the rest of the queue stays, and the caller's
-- context is kept as the initial one.
pub sys_call-FirstRun :
    (kmalloc : ℕ → Heap → Run (ℕ × Heap)) (functions : HeapFunctions) (fuel c n : ℕ) (qs : List ℕ)
    (s : Kernel)
    → (s.context c).eax ≡ pos 1
    → s.global_pcb ≡ null
    → s.initial_context ≡ null
    → IsQueue ready s.queues (n ∷ qs)
    → ((q : ℕ) → has q (n ∷ qs) ≡ true → (s.queues.pcb q).state ≡ ready_state)
    → length (n ∷ qs) < fuel
    → Returns (FirstRun c n qs s) (sys_call kmalloc functions fuel c s)
sys_call-FirstRun kmalloc functions fuel c n qs s e nobody early is states enough =
    let low : 0 < n = is.linked.1 in
    let run : sys_call kmalloc functions fuel c s
        ≡ dispatch fuel n (record s { initial_context = c }) =
      sys_call-idle kmalloc functions fuel c s e
      ∙ ap (λ h. idle_case fuel h c s) is.linked.0
      ∙ idle_case-first fuel c n s nobody early low in
    subst (Returns (FirstRun c n qs s)) (sym run) (
      Returns-mono
        (dispatch-Dispatched fuel n (n ∷ qs) (record s { initial_context = c }) low is
          (states n (ground arith)) enough)
        λ r done. record {
          resumed = done.resumed;
          after = record {
            running = done.running;
            nonnull = low;
            queue = subst (IsQueue ready r.1.queues) (erase-first n qs) done.queue;
            apart = is.distinct.0;
            states = λ q h. elim (Bool-cases (q == n)) [
              | inl me ↦
                  let here : n ≡ q = ground arith in
                  subst (λ x. (r.1.queues.pcb x).state ≡ ready_state) here done.state
              | inr other ↦ done.states q other ∙ states q h
            ];
          };
          kept_context = done.initial;
          same_contexts = done.contexts;
        })
