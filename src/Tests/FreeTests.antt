-- ===== src/Tests/FreeTests.antt =====
-- A heap with one allocated block at 104, which is the process named "a"; the same process is
-- alone in the ready queue.
use mpx.Base.{◌≡◌, refl, true, false, some, List, [], ◌∷◌, arith, ◌==◌, if◌then◌else◌}
use mpx.Base.Int.{pos}
use mpx.Base.Run.{ok, fault, ◌>>=◌, Returns}
use mpx.Heap.{Heap, free_memory, allocate_memory}
use mpx.Heap.Blocks.{Block, IsHeap}
use mpx.Heap.Twice.{free_memory_twice}
use mpx.SysMem.{HeapFunctions}
use mpx.Pcb.{Queues, ready, suspend_state, pcb_remove}
use mpx.Pcb.Queue.{IsQueue}
use mpx.Pcb.Setup.{pcb_free}
use mpx.Pcb.Setup.Free.{pcb_free_faults}
use mpx.Command.{requeue}
use mpx.Command.Suspend.{requeue-suspend}

abbrev one_block_heap : Heap
one_block_heap = record { memlist = 100; word = λ a. if a == 100 then 1102 else 0 }

abbrev one_block : List Block
one_block = record { size = 1100; free = false } ∷ []

one_block-IsHeap : IsHeap one_block_heap one_block
one_block-IsHeap = record {
  chain = (refl, tt);
  fits = (omega arith, refl, omega arith);
  inhabited = refl;
}

free_memory_twice_example :
    (free_memory 2 104 one_block_heap >>= λ (_, h'). free_memory 2 104 h') ≡ fault
free_memory_twice_example =
    free_memory_twice 2 104 one_block_heap one_block one_block-IsHeap (omega arith)

abbrev lone_process : Queues
lone_process = record {
  pcb = λ p. record {
    name = 97 ∷ 0 ∷ [];
    class = pos 1;
    priority = pos 1;
    state = pos 1;
    stack_top = 0;
    next_pcb = 0;
    prev_pcb = 0;
  };
  ready_head = 104;
  blocked_head = 0;
  suspended_head = 0;
}

abbrev installed : HeapFunctions
installed = record {
  malloc_function = some (allocate_memory 2);
  free_function = some (free_memory 2);
}

pcb_free_faults_example :
    pcb_free
      (λ size h. ok (0, h))
      installed
      104
      (record { queues = lone_process; heap = one_block_heap; console = [] })
    ≡ fault
pcb_free_faults_example =
    pcb_free_faults (λ size h. ok (0, h)) installed 2 104
      (record { queues = lone_process; heap = one_block_heap; console = [] }) one_block refl
      one_block-IsHeap (omega arith) (omega arith) 97 (0 ∷ []) (omega arith) refl

lone-IsQueue : IsQueue ready lone_process (104 ∷ [])
lone-IsQueue = record { linked = (refl, omega arith, refl); distinct = (refl, tt) }

requeue-suspend_example :
    Returns
      (λ k'.
        IsQueue ready k' (104 ∷ [])
        × ((k'.pcb 104).state ≡ suspend_state)
        × (pcb_remove 3 104 k' ≡ ok (true, k')))
      (requeue 3 suspend_state 104 lone_process)
requeue-suspend_example = requeue-suspend 3 104 lone_process (104 ∷ []) (omega arith) lone-IsQueue
