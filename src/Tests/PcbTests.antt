-- ===== src/Tests/PcbTests.antt =====
-- A ready queue of the processes 1 and 2, with priorities 1 and 4; process 3 has priority 2.
use mpx.Base.{ℕ, ◌≡◌, ◌≢◌, refl, true, false, some, [], ◌∷◌, arith, if◌then◌else◌, ◌==◌}
use mpx.Base.Int.{pos, ◌≤ℤ◌, ◌<ℤ◌}
use mpx.Base.Run.{Returns, ◌>>=◌}
use mpx.Pcb.{Pcb, Queues, ready, blocked, insert_head, pcb_insert, pcb_remove}
use mpx.Pcb.Queue.{has, IsQueue, rank}
use mpx.Pcb.Insert.{Inserted, pcb_insert_lem}
use mpx.Pcb.Remove.{Removed, remove_head, pcb_remove_lem}
use mpx.Pcb.Order.{Sorted, pcb_insert-Sorted, pcb_remove-pcb_insert}

abbrev process : ℕ → ℕ → ℕ → Pcb
process priority state next = record {
  name = [];
  class = pos 1;
  priority = pos priority;
  state = pos state;
  stack_top = 0;
  next_pcb = next;
  prev_pcb = 0;
}

abbrev two_ready : Queues
two_ready = record {
  pcb = λ p. if p == 1 then process 1 1 2 else if p == 2 then process 4 1 0 else process 2 1 0;
  ready_head = 1;
  blocked_head = 0;
  suspended_head = 0;
}

two_ready-IsQueue : IsQueue ready two_ready (1 ∷ 2 ∷ [])
two_ready-IsQueue = record {
  linked = (refl, omega arith, (refl, omega arith, refl));
  distinct = (refl, (refl, tt));
}

state_ready : insert_head (two_ready.pcb 3).state ≡ some ready
unfolding insert_head
state_ready = refl

remove_ready : remove_head (two_ready.pcb 2).state ≡ some ready
unfolding remove_head
remove_ready = refl

pcb_insert_example : Returns (Inserted ready 3 (1 ∷ 2 ∷ []) two_ready) (pcb_insert 2 3 two_ready)
pcb_insert_example =
    pcb_insert_lem 2 3 ready two_ready (1 ∷ 2 ∷ []) (omega arith) state_ready two_ready-IsQueue refl
      (omega arith)

pcb_remove_example : Returns (Removed ready 2 (1 ∷ 2 ∷ []) two_ready) (pcb_remove 3 2 two_ready)
pcb_remove_example =
    pcb_remove_lem 3 2 two_ready ready (1 ∷ 2 ∷ []) (omega arith) remove_ready two_ready-IsQueue
      (omega arith)

ready-blocked : ready ≢ blocked
ready-blocked = λ e. cc

only_first : (q : ℕ) → has q (1 ∷ []) ≡ true → rank two_ready.pcb q ≤ℤ rank two_ready.pcb 3
only_first q h = ground arith

only_second : (q : ℕ) → has q (2 ∷ []) ≡ true → rank two_ready.pcb 3 <ℤ rank two_ready.pcb q
only_second q h = ground arith

pcb_remove-pcb_insert_example :
    Returns
      (λ (failed, k'). (failed ≡ false) × IsQueue ready k' (1 ∷ 2 ∷ []))
      (pcb_insert 4 3 two_ready >>= λ k₁. pcb_remove 4 3 k₁)
pcb_remove-pcb_insert_example =
    pcb_remove-pcb_insert 4 3 ready two_ready (1 ∷ 2 ∷ []) (omega arith) state_ready ready-blocked
      two_ready-IsQueue refl (omega arith)

pcb_insert-Sorted_example :
    Returns
      (λ k'. IsQueue ready k' (1 ∷ 3 ∷ 2 ∷ []) × Sorted (rank k'.pcb) (1 ∷ 3 ∷ 2 ∷ []))
      (pcb_insert 2 3 two_ready)
pcb_insert-Sorted_example =
    pcb_insert-Sorted 2 3 ready two_ready (1 ∷ []) (2 ∷ []) (omega arith) state_ready
      two_ready-IsQueue refl (omega arith) ((omega arith, tt), (tt, tt)) only_first only_second
