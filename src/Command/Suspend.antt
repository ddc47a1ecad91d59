-- ===== src/Command/Suspend.antt =====
-- What suspending does to the queues: SUSPEND_STATE of include/mpx/pcb.h is no state that
-- kernel/pcb.c knows.
use mpx.Base.{ℕ, ◌<◌, ◌≡◌, true, none, List, [], ◌∷◌, arith}
use mpx.Base.Int.{ℤ}
use mpx.Base.Run.{ok, Returns, returns}
use mpx.Pcb.{Pcb, Queues, ready, insert_head, set_state, suspend_state, pcb_insert, pcb_remove}
use mpx.Pcb.Queue.{Linked, IsQueue}
use mpx.Pcb.Remove.{remove_head, pcb_remove-other}
use mpx.Command.{requeue}

Linked-next :
    (f g : ℕ → Pcb) (p : ℕ) (qs : List ℕ)
    → ((q : ℕ) → (g q).next_pcb ≡ (f q).next_pcb)
    → Linked f p qs
    → Linked g p qs
Linked-next f g p [] same l = l
Linked-next f g p (q ∷ qs) same l =
    (l.0, l.1, rw (same q) (Linked-next f g (f q).next_pcb qs same l.2))

suspended-IsQueue :
    (p : ℕ) (k : Queues) (qs : List ℕ)
    → IsQueue ready k qs
    → IsQueue ready (set_state p suspend_state k) qs
suspended-IsQueue p k qs is = record {
  linked =
      Linked-next k.pcb (set_state p suspend_state k).pcb k.ready_head qs (λ q. ground arith)
        is.linked;
  distinct = is.distinct;
}

suspended_state_of :
    (p : ℕ) (k : Queues) → ((set_state p suspend_state k).pcb p).state ≡ suspend_state
suspended_state_of p k = ground arith

pcb_insert-suspended :
    (fuel p : ℕ) (k : Queues) → (k.pcb p).state ≡ suspend_state → pcb_insert fuel p k ≡ ok k
unfolding pcb_insert insert_head
pcb_insert-suspended fuel p k e = ground arith

remove_head-suspended : (s : ℤ) → s ≡ suspend_state → remove_head s ≡ none
unfolding remove_head
remove_head-suspended s e = ground arith

-- The step of `suspend_pcb` that sets the state and inserts the process again, for a process that is
-- not NULL and before the command's message is sent, returns with the ready queue as it was, the
-- process in it if it was there before, though its state is SUSPEND_STATE; `pcb_remove`, which
-- `delete_pcb` and the scheduler call, then fails on the process and changes nothing.
pub requeue-suspend :
    (fuel p : ℕ) (k : Queues) (qs : List ℕ)
    → 0 < p
    → IsQueue ready k qs
    → Returns
        (λ k'.
          IsQueue ready k' qs
          × ((k'.pcb p).state ≡ suspend_state)
          × (pcb_remove fuel p k' ≡ ok (true, k')))
        (requeue fuel suspend_state p k)
unfolding requeue
requeue-suspend fuel p k qs low is =
    let suspended = set_state p suspend_state k in
    let st = suspended_state_of p k in
    rw (pcb_insert-suspended fuel p suspended st) (
      returns (
        suspended-IsQueue p k qs is,
        st,
        pcb_remove-other fuel p suspended (remove_head-suspended _ st),
      ))
