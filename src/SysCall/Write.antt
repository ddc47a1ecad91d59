-- ===== src/SysCall/Write.antt =====
-- The WRITE call of kernel/sys_call.c while no process is blocked.
use mathlib.Core.Path.{subst, fun_ext}
use mpx.Base.{
  ℕ, suc, ◌+◌, ◌<◌, ◌≡◌, refl, ◌∙◌, ap, sym, inl, inr, true, false, some, List, ◌∷◌, arith, ◌==◌,
  Bool-cases, ==_refl, length,
}
use mpx.Base.Int.{ℤ, pos}
use mpx.Base.Run.{Run, ok, ◌>>=◌, Returns, Returns-mono}
use mpx.Heap.{Heap}
use mpx.SysMem.{HeapFunctions}
use mpx.Pcb.{Pcb, null, set_next, ready_state}
use mpx.Pcb.Queue.{rank, place, erase, Linked-frame}
use mpx.Serial.{Serial, write}
use mpx.Serial.Requests.{io_scheduler}
use mpx.SysCall.{
  Kernel, with_queues, insert_running, request_case, dispatch, idle_case, op_code, serve, sys_call,
}
use mpx.SysCall.Idle.{
  IsRunning, Switched, apart_of, saved, saved_blocks, saved_other, state-saved_self, rank-saved,
  saved-IsQueue, saved_contexts, saved_initial, saved_blocked, saved_driver, idle_case-chain,
  idle_case-Switched,
}
use mpx.SysCall.Request.{waiting_blocks, requested, once, twice, request_first, request_second}

-- the blocks of a kernel after both requests
abbrev blocks_after : ℕ → ℕ → (ℕ → Pcb) → ℕ → Pcb
blocks_after c g f = twice c g (once c g f)

module _ (c g : ℕ) (f : ℕ → Pcb) where
  once_next : (once c g f g).next_pcb ≡ null
  once_next = ground arith

  after_other : (q : ℕ) → (q == g) ≡ false → blocks_after c g f q ≡ f q
  after_other q h = let h' : (g == q) ≡ false = ground (arith, h) in rw h' refl

  rank-set_next : (h : ℕ → Pcb) (x : ℕ) → rank (set_next h g x) ≡ rank h
  rank-set_next h x = fun_ext λ q. ground arith

  rank-waiting_blocks : (h : ℕ → Pcb) → rank (waiting_blocks c g h) ≡ rank h
  rank-waiting_blocks h = fun_ext λ q. ground arith

  rank-blocks_after : rank (blocks_after c g f) ≡ rank f
  rank-blocks_after =
      rank-set_next (set_next (waiting_blocks c g (once c g f)) g null) g
      ∙ rank-set_next (waiting_blocks c g (once c g f)) null
      ∙ rank-waiting_blocks (once c g f)
      ∙ rank-set_next (waiting_blocks c g f) null
      ∙ rank-waiting_blocks f

  self : saved_blocks c g f g ≡ record (f g) { stack_top = c; state = ready_state }
  unfolding saved_blocks
  self = let same : (g == g) ≡ true = ==_refl g in rw same refl

  saved_blocks-again : saved_blocks c g (saved_blocks c g f) ≡ saved_blocks c g f
  unfolding saved_blocks
  saved_blocks-again = fun_ext λ q. elim (Bool-cases (g == q)) [
    | inl me ↦ rw me (ap (λ (b : Pcb). record b { stack_top = c; state = ready_state }) self)
    | inr other ↦ rw other refl
  ]

saved_running : (c g : ℕ) (s : Kernel) → (saved c g s).global_pcb ≡ s.global_pcb
unfolding saved
saved_running c g s = refl

module _ (c g n : ℕ) (qs : List ℕ) (port : Serial) (s : Kernel) where
  -- the kernel after both requests, and as an IDLE call at once would find it
  after_both : Kernel
  after_both = requested (blocks_after c g s.queues.pcb) g port s

  abbrev pub taken : Kernel
  taken = requested s.queues.pcb g port s

  resaved : Kernel
  unfolding after_both
  resaved = saved c g after_both

  resaved-IsRunning : IsRunning s g (n ∷ qs) → IsRunning resaved g (n ∷ qs)
  unfolding resaved after_both
  resaved-IsRunning is =
      let f = s.queues.pcb in
      let apart = apart_of g (n ∷ qs) is.apart in
      record {
        running = saved_running c g after_both ∙ is.running;
        nonnull = is.nonnull;
        queue = saved-IsQueue c g after_both (n ∷ qs) is.apart (record {
          linked =
              Linked-frame f (blocks_after c g f) s.queues.ready_head (n ∷ qs)
                (λ q i. after_other c g f q (apart q i)) is.queue.linked;
          distinct = is.queue.distinct;
        });
        apart = is.apart;
        states = λ q i. elim (Bool-cases (q == g)) [
          | inl me ↦ let e : q ≡ g = ground arith in rw e (state-saved_self c g after_both)
          | inr other ↦
              ap (λ (b : Pcb). b.state) (saved_other c g after_both q other)
              ∙ ap (λ (b : Pcb). b.state) (after_other c g f q other)
              ∙ is.states q i
        ];
      }

  resaved_initial : resaved.initial_context ≡ s.initial_context
  unfolding resaved after_both
  resaved_initial = saved_initial c g after_both

  resaved_rank : rank resaved.queues.pcb ≡ rank s.queues.pcb
  unfolding resaved after_both
  resaved_rank = rank-saved c g after_both ∙ rank-blocks_after c g s.queues.pcb

  resaved_stack :
      (q : ℕ) → (q == g) ≡ false → (resaved.queues.pcb q).stack_top ≡ (s.queues.pcb q).stack_top
  unfolding resaved after_both
  resaved_stack q h =
      ap (λ (b : Pcb). b.stack_top) (saved_other c g after_both q h)
      ∙ ap (λ (b : Pcb). b.stack_top) (after_other c g s.queues.pcb q h)

  taken-Switched :
      (r : ℕ × Kernel) → (n == g) ≡ false → Switched c g n qs resaved r → Switched c g n qs taken r
  unfolding resaved after_both
  taken-Switched r ne sw = record {
    resumed = sw.resumed ∙ resaved_stack n ne;
    after = subst (λ ρ. IsRunning r.1 n (erase n (place ρ g (n ∷ qs)))) resaved_rank sw.after;
    saved_context = sw.saved_context;
    others = λ q h. sw.others q h ∙ resaved_stack q h;
    ranks = sw.ranks ∙ resaved_rank;
    contexts = sw.contexts ∙ saved_contexts c g after_both;
    initial = sw.initial ∙ saved_initial c g after_both;
    blocked_kept = sw.blocked_kept ∙ saved_blocked c g after_both;
    driver = sw.driver ∙ saved_driver c g after_both;
  }

  resaved-again : saved c g resaved ≡ resaved
  unfolding resaved after_both saved
  resaved-again =
      ap (λ f. with_queues after_both (record (after_both.queues) { pcb = f }))
        (saved_blocks-again c g (blocks_after c g s.queues.pcb))

  idle_case-resaved :
      (fuel : ℕ)
      → s.global_pcb ≡ g
      → 0 < g
      → 0 < n
      → (s.initial_context == null) ≡ false
      → idle_case fuel n c after_both ≡ idle_case fuel n c resaved
  unfolding resaved after_both
  idle_case-resaved fuel running low head set =
      idle_case-chain fuel c g n after_both running low head set
      ∙ ap (λ x. insert_running fuel x >>= λ s₁. dispatch fuel n s₁) (sym resaved-again)
      ∙ sym (
          idle_case-chain fuel c g n resaved (saved_running c g after_both ∙ running) low head
            (ap (λ x. x == null) (saved_initial c g after_both) ∙ set))

op_code-write : (e : ℤ) → e ≡ pos 3 → op_code e ≡ some write
unfolding op_code
op_code-write e h = rw h refl

module _ (kmalloc : ℕ → Heap → Run (ℕ × Heap)) (functions : HeapFunctions) where
  sys_call-requests :
      (fuel c : ℕ) (s : Kernel)
      → (s.context c).eax ≡ pos 3
      → sys_call kmalloc functions fuel c s ≡ (
          request_case kmalloc functions fuel c write s >>= λ s₁.
          request_case kmalloc functions fuel c write s₁ >>= λ s₂.
          idle_case fuel s.queues.ready_head c s₂)
  unfolding sys_call serve
  sys_call-requests fuel c s e = rw (op_code-write (s.context c).eax e) refl

  -- what `io_scheduler` makes of the driver for the request of the context `c`
  abbrev pub scheduled : (fuel c g : ℕ) → Kernel → Serial → Run Serial
  scheduled fuel c g s port =
      let registers = s.context c in
      io_scheduler kmalloc functions fuel g registers.ebx registers.ecx registers.edx write port

  sys_call-run :
      (fuel c g n : ℕ) (qs : List ℕ) (port port' : Serial) (s : Kernel)
      → (s.context c).eax ≡ pos 3
      → IsRunning s g (n ∷ qs)
      → s.queues.blocked_head ≡ null
      → scheduled (suc fuel) c g s s.serial ≡ ok port
      → scheduled (suc fuel) c g s port ≡ ok port'
      → sys_call kmalloc functions (suc fuel) c s
        ≡ idle_case (suc fuel) n c (after_both c g n qs port' s)
  unfolding after_both
  sys_call-run fuel c g n qs port port' s e is none one two =
      let f = s.queues.pcb in
      let s₁ = requested (once c g f) g port s in
      let head = s.queues.ready_head in
      sys_call-requests (suc fuel) c s e
      ∙ ap
          (λ (r : Run Kernel). r >>= λ t.
            request_case kmalloc functions (suc fuel) c write t >>= λ s₂.
            idle_case (suc fuel) head c s₂)
          (request_first kmalloc functions (suc fuel) c g port s is.running is.nonnull none one)
      ∙ ap (λ (r : Run Kernel). r >>= λ s₂. idle_case (suc fuel) head c s₂)
          (request_second kmalloc functions fuel c g port' s₁ is.running is.nonnull refl
            (once_next c g f) two)
      ∙ ap (λ h. idle_case (suc fuel) h c (requested (blocks_after c g f) g port' s))
          is.queue.linked.0

  -- The first WRITE call of a running process `g`: the blocked queue is empty, `g` and all processes
  -- of the ready queue are in the state READY, `n` is that queue's head and `g` not in it, an initial
  -- context is set, and `io_scheduler` with the call's registers returns twice, the second time from
  -- what the first left of the driver. The call returns and does what an IDLE call does: `g` is
  -- READY in the ready queue, in its place by priority, and `n` runs; but the request was scheduled
  -- twice, and the blocked queue's head is then `g`, though it is READY.
  pub sys_call-write :
      (fuel c g n : ℕ) (qs : List ℕ) (port port' : Serial) (s : Kernel)
      → (s.context c).eax ≡ pos 3
      → IsRunning s g (n ∷ qs)
      → (s.initial_context == null) ≡ false
      → s.queues.blocked_head ≡ null
      → scheduled (suc fuel) c g s s.serial ≡ ok port
      → scheduled (suc fuel) c g s port ≡ ok port'
      → length (n ∷ qs) + 1 < suc fuel
      → Returns
          (Switched c g n qs (taken c g n qs port' s))
          (sys_call kmalloc functions (suc fuel) c s)
  sys_call-write fuel c g n qs port port' s e is set none one two m =
      let head = is.queue.linked.1 in
      let ne = apart_of g (n ∷ qs) is.apart n (ground arith) in
      subst (Returns (Switched c g n qs (taken c g n qs port' s)))
        (sym (
          sys_call-run fuel c g n qs port port' s e is none one two
          ∙ idle_case-resaved c g n qs port' s (suc fuel) is.running is.nonnull head set))
        (Returns-mono
          (idle_case-Switched (suc fuel) c g n qs (resaved c g n qs port' s)
            (resaved-IsRunning c g n qs port' s is)
            (ap (λ x. x == null) (resaved_initial c g n qs port' s) ∙ set) m)
          λ r sw. taken-Switched c g n qs port' s r ne sw)
