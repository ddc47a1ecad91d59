-- ===== src/Command/Load/All.antt =====
-- Several processes made one after another, as load_r3 and kmain do.
use mathlib.Core.Path.{subst}
use Prim.Native.String.{String}
use mpx.Base.{ℕ, ◌+◌, ◌<◌, ◌≡◌, refl, sym, Bool, true, false, List, [], ◌∷◌, ◌++◌, arith, length}
use mpx.Base.Int.{pos}
use mpx.Base.Run.{Run, Returns, bind_same, >>=-ok}
use mpx.Base.Text.{codes, with_nul}
use mpx.Heap.{Heap}
use mpx.SysMem.{HeapFunctions}
use mpx.Pcb.Queue.{has, rank}
use mpx.Pcb.Order.{Sorted}
use mpx.Pcb.Setup.Valid.{Named}
use mpx.Command.Load.{Machine, load, load_r3}
use mpx.Command.Load.Contexts.{blocks}
use mpx.Command.Load.Jobs.{AllLoaded, CanLoad, Job, load_all, load_all-AllLoaded}

-- A process that load_r3 makes, and the five, from blocks and heaps that the allocations give.
abbrev pub r3_job : (whole : Bool) → String → (i entry block : ℕ) → Heap → Job
r3_job whole text i entry block after = record {
  whole = whole;
  text = codes text;
  class = pos 1;
  priority = pos i;
  entry = entry;
  block = block;
  after = after;
}

abbrev pub r3_jobs : (proc p : ℕ → ℕ) → (h : ℕ → Heap) → List Job
r3_jobs proc p h =
    r3_job true "process1" 1 (proc 1) (p 1) (h 1)
    ∷ r3_job false "process2" 2 (proc 2) (p 2) (h 2)
    ∷ r3_job false "process3" 3 (proc 3) (p 3) (h 3)
    ∷ r3_job false "process4" 4 (proc 4) (p 4) (h 4)
    ∷ r3_job false "process5" 5 (proc 5) (p 5) (h 5)
    ∷ []

module _ (kmalloc : ℕ → Heap → Run (ℕ × Heap)) (functions : HeapFunctions) where
  load_r3-load_all :
      (fuel : ℕ) (proc p : ℕ → ℕ) (h : ℕ → Heap) (m : Machine)
      → load_r3 kmalloc functions fuel proc m ≡ load_all kmalloc functions fuel (r3_jobs proc p h) m
  unfolding load_r3 load_all
  load_r3-load_all fuel proc p h m =
      bind_same (load kmalloc functions fuel true (with_nul "process1") (pos 1) (pos 1) (proc 1) m)
        _ _
        λ m₁.
          bind_same
            (load kmalloc functions fuel false (with_nul "process2") (pos 1) (pos 2) (proc 2) m₁) _
            _
            λ m₂.
              bind_same
                (load kmalloc functions fuel false (with_nul "process3") (pos 1) (pos 3) (proc 3)
                  m₂)
                _ _
                λ m₃.
                  bind_same
                    (load kmalloc functions fuel false (with_nul "process4") (pos 1) (pos 4)
                      (proc 4) m₃)
                    _ _
                    λ m₄. sym (
                      >>=-ok (
                        load kmalloc functions fuel false (with_nul "process5") (pos 1) (pos 5)
                          (proc 5) m₄))

  -- Where the heap gives five new blocks with room for the names, no process is called "process1" to
  -- "process5", all names are NUL-terminated, the ready queue is sorted by priority, the suspended
  -- queue is empty (so that `pcb_find` sends no message) and the fuel is beyond the ready queue's
  -- length and five more, `load_r3` returns: the five are user processes of the priorities 1 to 5 in
  -- the state READY, with their saved contexts at the tops of their stacks, where eip is proc1 to
  -- proc5, cs is 8, the other segments are 16, esp and ebp are the stack's top and bottom, and the
  -- flags enable interrupts; the ready queue has just them and the processes from before, and is
  -- sorted; the suspended queue stays empty, and of other blocks only the links change.
  pub load_r3-AllLoaded :
      (fuel : ℕ) (proc p : ℕ → ℕ) (h : ℕ → Heap) (m : Machine) (name : ℕ → List ℕ) (rs : List ℕ)
      → CanLoad kmalloc functions
          (r3_jobs proc p h)
          m.session.serial.heap
          name
          (λ q. has q (rs ++ []))
      → Named m.session.queues name rs []
      → Sorted (rank (blocks m)) rs
      → ((q : ℕ) → has q (rs ++ []) ≡ false → 50 < length (blocks m q).name)
      → 5 + length rs < fuel
      → Returns (AllLoaded (r3_jobs proc p h) rs [] m) (load_r3 kmalloc functions fuel proc m)
  load_r3-AllLoaded fuel proc p h m name rs can named sorted room fr =
      subst (Returns (AllLoaded (r3_jobs proc p h) rs [] m))
        (sym (load_r3-load_all fuel proc p h m))
        (load_all-AllLoaded kmalloc functions fuel (r3_jobs proc p h) m name rs []
          (λ q. has q (rs ++ [])) can named sorted (λ q. refl) room (omega arith) (omega arith))
