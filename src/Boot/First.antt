-- ===== src/Boot/First.antt =====
-- The two processes that kmain makes.
use Prim.Native.String.{String}
use mathlib.Core.Path.{subst}
use mpx.Base.{ℕ, ◌+◌, ◌<◌, ◌≡◌, refl, sym, true, false, List, [], ◌∷◌, ◌++◌, arith, length}
use mpx.Base.Int.{pos}
use mpx.Base.Run.{Run, Returns, bind_same, >>=-ok}
use mpx.Base.Text.{codes, with_nul}
use mpx.Heap.{Heap}
use mpx.SysMem.{HeapFunctions}
use mpx.Pcb.Queue.{has, rank}
use mpx.Pcb.Order.{Sorted}
use mpx.Pcb.Setup.Valid.{Named}
use mpx.Command.Load.{Machine, load}
use mpx.Command.Load.Contexts.{blocks}
use mpx.Command.Load.Jobs.{Job, AllLoaded, CanLoad, load_all, load_all-AllLoaded}
use mpx.Boot.{first_processes}

-- A system process made with its whole context cleared.
abbrev pub system_job : String → (priority entry block : ℕ) → Heap → Job
system_job text priority entry block after = record {
  whole = true;
  text = codes text;
  class = pos 0;
  priority = pos priority;
  entry = entry;
  block = block;
  after = after;
}

abbrev pub first_jobs : (commhand idle_process p q : ℕ) → (h h' : Heap) → List Job
first_jobs commhand idle_process p q h h' =
    system_job "Command Handler" 1 commhand p h ∷ system_job "Idle Process" 9 idle_process q h' ∷ []

module _ (kmalloc : ℕ → Heap → Run (ℕ × Heap)) (functions : HeapFunctions) where
  first_processes-load_all :
      (fuel commhand idle_process p q : ℕ) (h h' : Heap) (m : Machine)
      → first_processes kmalloc functions fuel commhand idle_process m
        ≡ load_all kmalloc functions fuel (first_jobs commhand idle_process p q h h') m
  unfolding first_processes load_all
  first_processes-load_all fuel commhand idle_process p q h h' m =
      bind_same
        (load kmalloc functions fuel true (with_nul "Command Handler") (pos 0) (pos 1) commhand m) _
        _
        λ m₁. sym (
          >>=-ok (
            load kmalloc functions fuel true (with_nul "Idle Process") (pos 0) (pos 9) idle_process
              m₁))

  -- Where the heap gives two new blocks, no process is called "Command Handler" or "Idle Process", and
  -- the fuel is beyond the queues' lengths, `kmain`'s two processes are made: system processes of the
  -- priorities 1 and 9 that start at `commhand` and `sys_idle_process`; the ready queue has just them
  -- and the processes from before, sorted; before, the ready queue is sorted.
  pub first_processes-AllLoaded :
      (fuel commhand idle_process p q : ℕ) (h h' : Heap) (m : Machine) (name : ℕ → List ℕ)
      (rs ss : List ℕ)
      → CanLoad kmalloc functions
          (first_jobs commhand idle_process p q h h')
          m.session.serial.heap
          name
          (λ a. has a (rs ++ ss))
      → Named m.session.queues name rs ss
      → Sorted (rank (blocks m)) rs
      → ((a : ℕ) → has a (rs ++ ss) ≡ false → 50 < length (blocks m a).name)
      → 2 + length rs < fuel
      → length ss < fuel
      → Returns
          (AllLoaded (first_jobs commhand idle_process p q h h') rs ss m)
          (first_processes kmalloc functions fuel commhand idle_process m)
  first_processes-AllLoaded fuel commhand idle_process p q h h' m name rs ss can named sorted room
        fr fs =
      subst (Returns (AllLoaded (first_jobs commhand idle_process p q h h') rs ss m))
        (sym (first_processes-load_all fuel commhand idle_process p q h h' m))
        (load_all-AllLoaded kmalloc functions fuel (first_jobs commhand idle_process p q h h') m
          name rs ss (λ a. has a (rs ++ ss)) can named sorted (λ a. refl) room (omega arith) fs)
