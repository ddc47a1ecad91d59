-- ===== src/SysCall/Idle.antt =====
-- The IDLE call: the running process goes back to the ready queue and the queue's head runs.
use mathlib.Core.Path.{subst, fun_ext}
use mathlib.Core.Bool.{false≢true}
use mpx.Base.{
  ℕ, ◌+◌, ◌<◌, ◌≤◌, ◌≡◌, refl, ◌∙◌, ap, sym, inl, inr, true, false, some, List, ◌∷◌, arith, ◌==◌,
  Bool-cases, ==_refl, ==_iff, length,
}
use mpx.Base.Int.{ℤ, pos}
use mpx.Base.Run.{Run, ok, ◌>>=◌, Returns, returns, Returns-mono, Returns-bind}
use mpx.Pcb.{
  Pcb, Queues, null, update, set_next, ready, blocked, insert_head, pcb_insert, pcb_remove,
  ready_state,
}
use mpx.Pcb.Queue.{
  has, IsQueue, SameButNext, place, erase, rank, Linked-frame, has-place, has-erase, length-place,
}
use mpx.Pcb.Insert.{pcb_insert_lem}
use mpx.Pcb.Order.{same_rank}
use mpx.Pcb.Remove.{remove_head, pcb_remove_lem}
use mpx.Serial.{idle}
use mpx.Heap.{Heap}
use mpx.SysMem.{HeapFunctions}
use mpx.SysCall.{
  Kernel, with_queues, save_running, insert_running, dispatch, idle_case, op_code, serve, sys_call,
}

-- `g` runs and the processes `qs` are ready, in this order.
pub record IsRunning (s : Kernel) (g : ℕ) (qs : List ℕ) : Type 0 where
  pub running : s.global_pcb ≡ g
  pub nonnull : 0 < g
  pub queue : IsQueue ready s.queues qs
  pub apart : has g qs ≡ false
  pub states : (q : ℕ) → has q (g ∷ qs) ≡ true → (s.queues.pcb q).state ≡ ready_state

pub insert_head-ready : (s : ℤ) → s ≡ ready_state → insert_head s ≡ some ready
unfolding insert_head
insert_head-ready s e = ground arith

pub remove_head-ready : (s : ℤ) → s ≡ ready_state → remove_head s ≡ some ready
unfolding remove_head
remove_head-ready s e = ground arith

-- the kernel once the running process is saved as ready
unfoldable pub saved_blocks : ℕ → ℕ → (ℕ → Pcb) → ℕ → Pcb
saved_blocks c g f = update f g (record (f g) { stack_top = c; state = ready_state })

unfoldable pub saved : ℕ → ℕ → Kernel → Kernel
unfolding saved_blocks
saved c g s = with_queues s (record (s.queues) { pcb = saved_blocks c g s.queues.pcb })

save_running-saved :
    (c g : ℕ) (s : Kernel)
    → s.global_pcb ≡ g
    → 0 < g
    → save_running c ready_state s ≡ ok (saved c g s)
unfolding save_running saved
save_running-saved c g s e h = ground arith

insert_running-saved :
    (fuel c g : ℕ) (s : Kernel)
    → s.global_pcb ≡ g
    → insert_running fuel (saved c g s)
      ≡ (pcb_insert fuel g (saved c g s).queues >>= λ q. ok (with_queues (saved c g s) q))
unfolding insert_running saved
insert_running-saved fuel c g s e =
    ap (λ p. pcb_insert fuel p (saved c g s).queues >>= λ q. ok (with_queues (saved c g s) q)) e

pub rank-saved : (c g : ℕ) (s : Kernel) → rank (saved c g s).queues.pcb ≡ rank s.queues.pcb
unfolding saved
rank-saved c g s = fun_ext λ q. ground arith

pub saved-IsQueue :
    (c g : ℕ) (s : Kernel) (qs : List ℕ)
    → has g qs ≡ false
    → IsQueue ready s.queues qs
    → IsQueue ready (saved c g s).queues qs
unfolding saved
saved-IsQueue c g s qs out is = record {
  linked =
      Linked-frame s.queues.pcb (saved_blocks c g s.queues.pcb) s.queues.ready_head qs
        (λ q h. ground arith) is.linked;
  distinct = is.distinct;
}

module _ (c g : ℕ) (s : Kernel) where
  pub saved_contexts : (saved c g s).context ≡ s.context
  unfolding saved
  saved_contexts = refl

  pub saved_initial : (saved c g s).initial_context ≡ s.initial_context
  unfolding saved
  saved_initial = refl

  pub saved_blocked : (saved c g s).queues.blocked_head ≡ s.queues.blocked_head
  unfolding saved
  saved_blocked = refl

  pub saved_driver : (saved c g s).serial ≡ s.serial
  unfolding saved
  saved_driver = refl

  pub state-saved_self : ((saved c g s).queues.pcb g).state ≡ ready_state
  unfolding saved
  state-saved_self = ground arith

  pub saved_self : ((saved c g s).queues.pcb g).stack_top ≡ c
  unfolding saved
  saved_self = ground arith

  pub saved_other : (q : ℕ) → (q == g) ≡ false → (saved c g s).queues.pcb q ≡ s.queues.pcb q
  unfolding saved
  saved_other q h = ground arith

pub saved_states :
    (c g : ℕ) (s : Kernel) (qs : List ℕ)
    → IsRunning s g qs
    → (q : ℕ) → has q (g ∷ qs) ≡ true
    → ((saved c g s).queues.pcb q).state ≡ ready_state
saved_states c g s qs is q h = elim (Bool-cases (q == g)) [
  | inl me ↦ let e : q ≡ g = ground arith in rw e (state-saved_self c g s)
  | inr other ↦ ap (λ (b : Pcb). b.state) (saved_other c g s q other) ∙ is.states q h
]

-- what the insertion of the running process leaves
record Requeued (c g n : ℕ) (qs : List ℕ) (s s' : Kernel) : Type 0 where
  queue : IsQueue ready s'.queues (place (rank s.queues.pcb) g (n ∷ qs))
  states : (q : ℕ) → has q (g ∷ n ∷ qs) ≡ true → (s'.queues.pcb q).state ≡ ready_state
  others : (q : ℕ) → (q == g) ≡ false → (s'.queues.pcb q).stack_top ≡ (s.queues.pcb q).stack_top
  mine : (s'.queues.pcb g).stack_top ≡ c
  ranks : rank s'.queues.pcb ≡ rank s.queues.pcb
  contexts : s'.context ≡ s.context
  initial : s'.initial_context ≡ s.initial_context
  blocked_kept : s'.queues.blocked_head ≡ s.queues.blocked_head
  driver : s'.serial ≡ s.serial

insert_running-Requeued :
    (fuel c g n : ℕ) (qs : List ℕ) (s : Kernel)
    → IsRunning s g (n ∷ qs)
    → length (n ∷ qs) ≤ fuel
    → Returns (Requeued c g n qs s) (insert_running fuel (saved c g s))
insert_running-Requeued fuel c g n qs s is m = rw (insert_running-saved fuel c g s is.running) (
    Returns-bind
      (pcb_insert_lem fuel g ready (saved c g s).queues (n ∷ qs) is.nonnull
        (insert_head-ready _ (state-saved_self c g s))
        (saved-IsQueue c g s (n ∷ qs) is.apart is.queue) is.apart m)
      λ k done. returns (record {
        queue = rw (rank-saved c g s) at done.queue;
        states = λ q h.
            ap (λ (b : Pcb). b.state) (done.spared.fields q) ∙ saved_states c g s (n ∷ qs) is q h;
        others = λ q h.
            ap (λ (b : Pcb). b.stack_top) (done.spared.fields q)
            ∙ ap (λ (b : Pcb). b.stack_top) (saved_other c g s q h);
        mine = ap (λ (b : Pcb). b.stack_top) (done.spared.fields g) ∙ saved_self c g s;
        ranks = same_rank (saved c g s).queues.pcb k.pcb done.spared.fields ∙ rank-saved c g s;
        contexts = saved_contexts c g s;
        initial = saved_initial c g s;
        blocked_kept = done.heads blocked (ground arith) ∙ saved_blocked c g s;
        driver = saved_driver c g s;
      }))

-- what `dispatch` leaves, from the ready queue `rs`
pub record Dispatched (n : ℕ) (rs : List ℕ) (s : Kernel) (r : ℕ × Kernel) : Type 0 where
  pub resumed : r.0 ≡ (s.queues.pcb n).stack_top
  pub running : r.1.global_pcb ≡ n
  pub queue : IsQueue ready r.1.queues (erase n rs)
  pub state : (r.1.queues.pcb n).state ≡ ready_state
  pub states : (q : ℕ) → (q == n) ≡ false → (r.1.queues.pcb q).state ≡ (s.queues.pcb q).state
  pub stacks : (q : ℕ) → (r.1.queues.pcb q).stack_top ≡ (s.queues.pcb q).stack_top
  pub ranks : rank r.1.queues.pcb ≡ rank s.queues.pcb
  pub contexts : r.1.context ≡ s.context
  pub initial : r.1.initial_context ≡ s.initial_context
  pub blocked_kept : r.1.queues.blocked_head ≡ s.queues.blocked_head
  pub driver : r.1.serial ≡ s.serial

dispatch_blocks : ℕ → (ℕ → Pcb) → ℕ → Pcb
dispatch_blocks n f =
    update (set_next f n null) n (record (set_next f n null n) { state = ready_state })

module _ (n : ℕ) (f : ℕ → Pcb) where
  dispatch_blocks-other : (q : ℕ) → (q == n) ≡ false → dispatch_blocks n f q ≡ f q
  unfolding dispatch_blocks
  dispatch_blocks-other q h = ground arith

  dispatch_blocks-state : (dispatch_blocks n f n).state ≡ ready_state
  unfolding dispatch_blocks
  dispatch_blocks-state = ground arith

  dispatch_blocks-stack_top : (q : ℕ) → (dispatch_blocks n f q).stack_top ≡ (f q).stack_top
  unfolding dispatch_blocks
  dispatch_blocks-stack_top q = ground arith

  dispatch_blocks-rank : rank (dispatch_blocks n f) ≡ rank f
  unfolding dispatch_blocks
  dispatch_blocks-rank = fun_ext λ q. ground arith

dispatch_tail : ℕ → Kernel → Queues → ℕ × Kernel
unfolding dispatch_blocks
dispatch_tail n s q = (
  (dispatch_blocks n q.pcb n).stack_top,
  record s { queues = record q { pcb = dispatch_blocks n q.pcb }; global_pcb = n },
)

dispatch-tail :
    (fuel n : ℕ) (s : Kernel)
    → 0 < n
    → dispatch fuel n s ≡ (pcb_remove fuel n s.queues >>= λ (_, q). ok (dispatch_tail n s q))
unfolding dispatch dispatch_tail
dispatch-tail fuel n s h = ground arith

stack : (f g : ℕ → Pcb) → SameButNext f g → (q : ℕ) → (g q).stack_top ≡ (f q).stack_top
stack f g same q = ap (λ (b : Pcb). b.stack_top) (same q)

pub apart_of :
    (n : ℕ) (qs : List ℕ) → has n qs ≡ false → (x : ℕ) → has x qs ≡ true → (x == n) ≡ false
apart_of n qs out x h = elim (Bool-cases (x == n)) [
  | inl e ↦ absurd (false≢true (sym out ∙ subst (λ y. has y qs ≡ true) ((==_iff x n).0 e) h))
  | inr ne ↦ ne
]

pub dispatch-Dispatched :
    (fuel n : ℕ) (rs : List ℕ) (s : Kernel)
    → 0 < n
    → IsQueue ready s.queues rs
    → (s.queues.pcb n).state ≡ ready_state
    → length rs < fuel
    → Returns (Dispatched n rs s) (dispatch fuel n s)
unfolding dispatch_tail
dispatch-Dispatched fuel n rs s low is st m = rw (dispatch-tail fuel n s low) (
    Returns-bind (pcb_remove_lem fuel n s.queues ready rs low (remove_head-ready _ st) is m)
      λ (failed, q) done.
        let out : has n (erase n rs) ≡ false = rw (has-erase n n rs is.distinct, ==_refl n) refl in
        returns (record {
          resumed = dispatch_blocks-stack_top n q.pcb n ∙ stack s.queues.pcb q.pcb done.fields n;
          running = refl;
          queue = record {
            linked =
                Linked-frame q.pcb (dispatch_blocks n q.pcb) q.ready_head (erase n rs)
                  (λ x h. dispatch_blocks-other n q.pcb x (apart_of n (erase n rs) out x h))
                  done.queue.linked;
            distinct = done.queue.distinct;
          };
          state = dispatch_blocks-state n q.pcb;
          states = λ x h.
              ap (λ (b : Pcb). b.state) (dispatch_blocks-other n q.pcb x h)
              ∙ ap (λ (b : Pcb). b.state) (done.fields x);
          stacks =
              λ x. dispatch_blocks-stack_top n q.pcb x ∙ stack s.queues.pcb q.pcb done.fields x;
          ranks = dispatch_blocks-rank n q.pcb ∙ same_rank s.queues.pcb q.pcb done.fields;
          contexts = refl;
          initial = refl;
          blocked_kept = done.heads blocked (ground arith);
          driver = refl;
        }))

pub idle_case-chain :
    (fuel c g n : ℕ) (s : Kernel)
    → s.global_pcb ≡ g
    → 0 < g
    → 0 < n
    → (s.initial_context == null) ≡ false
    → idle_case fuel n c s ≡ (insert_running fuel (saved c g s) >>= λ s₁. dispatch fuel n s₁)
unfolding idle_case
idle_case-chain fuel c g n s e h k i =
    let low : (n == null) ≡ false = ground arith in
    let busy : (s.global_pcb == null) ≡ false = ground arith in
    rw (i, low, busy, save_running-saved c g s e h)

-- What the IDLE call leaves: `g` was running, `n` headed the ready queue.
pub record Switched (c g n : ℕ) (qs : List ℕ) (s : Kernel) (r : ℕ × Kernel) : Type 0 where
  pub resumed : r.0 ≡ (s.queues.pcb n).stack_top
  pub after : IsRunning r.1 n (erase n (place (rank s.queues.pcb) g (n ∷ qs)))
  pub saved_context : (r.1.queues.pcb g).stack_top ≡ c
  pub others :
      (q : ℕ) → (q == g) ≡ false → (r.1.queues.pcb q).stack_top ≡ (s.queues.pcb q).stack_top
  pub ranks : rank r.1.queues.pcb ≡ rank s.queues.pcb
  pub contexts : r.1.context ≡ s.context
  pub initial : r.1.initial_context ≡ s.initial_context
  pub blocked_kept : r.1.queues.blocked_head ≡ s.queues.blocked_head
  pub driver : r.1.serial ≡ s.serial

pub idle_case-Switched :
    (fuel c g n : ℕ) (qs : List ℕ) (s : Kernel)
    → IsRunning s g (n ∷ qs)
    → (s.initial_context == null) ≡ false
    → length (n ∷ qs) + 1 < fuel
    → Returns (Switched c g n qs s) (idle_case fuel n c s)
idle_case-Switched fuel c g n qs s is i m =
    rw (idle_case-chain fuel c g n s is.running is.nonnull is.queue.linked.1 i) (
      Returns-bind (insert_running-Requeued fuel c g n qs s is (omega arith)) λ s₁ re.
        Returns-mono
          (dispatch-Dispatched fuel n (place (rank s.queues.pcb) g (n ∷ qs)) s₁ is.queue.linked.1
            re.queue (re.states n (ground arith))
            (omega (arith, length-place (rank s.queues.pcb) g (n ∷ qs))))
          λ r done.
            let ps = place (rank s.queues.pcb) g (n ∷ qs) in
            record {
              resumed = done.resumed ∙ re.others n (ground (arith, is.apart));
              after = record {
                running = done.running;
                nonnull = is.queue.linked.1;
                queue = done.queue;
                apart = rw (has-erase n n ps re.queue.distinct, ==_refl n) refl;
                states = λ q h. elim (Bool-cases (q == n)) [
                  | inl me ↦
                      subst (λ x. (r.1.queues.pcb x).state ≡ ready_state) (sym ((==_iff q n).0 me))
                        done.state
                  | inr ne ↦
                      done.states q ne
                      ∙ re.states q (
                          ground (
                            arith,
                            has-erase n q ps re.queue.distinct,
                            has-place (rank s.queues.pcb) g q (n ∷ qs),
                          ))
                ];
              };
              saved_context = done.stacks g ∙ re.mine;
              others = λ q h. done.stacks q ∙ re.others q h;
              ranks = done.ranks ∙ re.ranks;
              contexts = done.contexts ∙ re.contexts;
              initial = done.initial ∙ re.initial;
              blocked_kept = done.blocked_kept ∙ re.blocked_kept;
              driver = done.driver ∙ re.driver;
            })

op_code-idle : (e : ℤ) → e ≡ pos 1 → op_code e ≡ some idle
unfolding op_code
op_code-idle e h = rw h refl

pub sys_call-idle :
    (kmalloc : ℕ → Heap → Run (ℕ × Heap)) (functions : HeapFunctions) (fuel c : ℕ) (s : Kernel)
    → (s.context c).eax ≡ pos 1
    → sys_call kmalloc functions fuel c s ≡ idle_case fuel s.queues.ready_head c s
unfolding sys_call serve
sys_call-idle kmalloc functions fuel c s e = rw (op_code-idle (s.context c).eax e) refl

-- The IDLE call of a running process `g`, not in the ready queue, with `n` at that queue's head,
-- where `g` and all processes of the ready queue are in the state READY (none of them resumed or
-- suspended) and an initial context is set: fuel beyond the queue's length gives a result; the context
-- to resume is the one that `n` had saved, `n` runs, and the ready queue is the old one with `g` in its place by priority and without `n`, all of its processes in
-- the ready state. `g` has the current context saved; no other process's saved context, no
-- process's priority, no context, no initial context, nothing of the driver and not the blocked
-- queue's head changes.
pub sys_call-Switched :
    (kmalloc : ℕ → Heap → Run (ℕ × Heap)) (functions : HeapFunctions) (fuel c g n : ℕ) (qs : List ℕ)
    (s : Kernel)
    → (s.context c).eax ≡ pos 1
    → IsRunning s g (n ∷ qs)
    → (s.initial_context == null) ≡ false
    → length (n ∷ qs) + 1 < fuel
    → Returns (Switched c g n qs s) (sys_call kmalloc functions fuel c s)
sys_call-Switched kmalloc functions fuel c g n qs s e is i m =
    rw (sys_call-idle kmalloc functions fuel c s e) (
      subst (λ h. Returns (Switched c g n qs s) (idle_case fuel h c s)) (sym is.queue.linked.0)
        (idle_case-Switched fuel c g n qs s is i m))
