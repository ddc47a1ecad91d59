-- ===== src/Boot/Handover.antt =====
-- The IDLE request of kmain, in kernel/kmain.c, handled by sys_call of kernel/sys_call.c.
use mathlib.Core.Path.{subst}
use mpx.Base.{ℕ, ◌+◌, ◌<◌, ◌≡◌, ◌∙◌, ap, sym, true, [], ◌∷◌, arith, ◌==◌, Bool-cases, inl, inr}
use mpx.Base.Int.{pos}
use mpx.Base.Run.{Run, Returns, Returns-mono}
use mpx.Heap.{Heap}
use mpx.SysMem.{HeapFunctions}
use mpx.Pcb.{Queues, null, ready, ready_state}
use mpx.Pcb.Queue.{has, IsQueue}
use mpx.SysCall.{sys_call}
use mpx.SysCall.Idle.{IsRunning}
use mpx.SysCall.First.{sys_call-FirstRun}
use mpx.Boot.{Addresses, Kernel}
use mpx.Boot.Memory.{commhand_block, idle_block}
use mpx.Boot.Running.{Running}

both_ready :
    (a : Addresses) (start total : ℕ) (k : Kernel) (q : ℕ)
    → Running a start total k
    → has q (commhand_block ∷ idle_block ∷ []) ≡ true
    → (k.machine.session.queues.pcb q).state ≡ ready_state
both_ready a start total k q run h = elim (Bool-cases (q == commhand_block)) [
  | inl first ↦
      let e : commhand_block ≡ q = ground arith in
      subst (λ x. (k.machine.session.queues.pcb x).state ≡ ready_state) e run.commhand_at.state_at
  | inr other ↦
      let e : idle_block ≡ q = ground (arith, h, other) in
      subst (λ x. (k.machine.session.queues.pcb x).state ≡ ready_state) e run.idle_at.state_at
]

-- The IDLE request in the queues that `kmain` has set up, with no process running and no initial
-- context kept: with fuel for 3 rounds `sys_call` returns the context that starts at `commhand`; the
-- command handler runs, the idle process alone is ready, and kmain's context is kept as the initial
-- one.
pub sys_call-Running :
    (kmalloc : ℕ → Heap → Run (ℕ × Heap)) (functions : HeapFunctions) (fuel c : ℕ) (a : Addresses)
    (start total : ℕ) (k : Kernel) (s : mpx.SysCall.Kernel)
    → Running a start total k
    → s.queues ≡ k.machine.session.queues
    → (s.context c).eax ≡ pos 1
    → s.global_pcb ≡ null
    → s.initial_context ≡ null
    → 2 < fuel
    → Returns
        (λ (r, s').
          ((k.machine.context r).eip ≡ a.commhand)
          × IsRunning s' commhand_block (idle_block ∷ [])
          × (s'.initial_context ≡ c))
        (sys_call kmalloc functions fuel c s)
sys_call-Running kmalloc functions fuel c a start total k s run same e nobody early enough =
    Returns-mono
      (sys_call-FirstRun kmalloc functions fuel c commhand_block (idle_block ∷ []) s e nobody early
        (subst (λ q. IsQueue ready q (commhand_block ∷ idle_block ∷ [])) (sym same) run.ready_queue)
        (λ q h. ap (λ (x : Queues). (x.pcb q).state) same ∙ both_ready a start total k q run h)
        (omega arith))
      λ r first.
        let top : r.0 ≡ commhand_block + 1024 =
          first.resumed
          ∙ ap (λ (x : Queues). (x.pcb commhand_block).stack_top) same
          ∙ run.commhand_at.stack_at in
        (
          ap (λ p. (k.machine.context p).eip) top ∙ run.commhand_at.start_at,
          first.after,
          first.kept_context,
        )
