-- ===== src/Pcb/Setup.antt =====
-- Making and freeing processes: pcb_allocate, pcb_free and pcb_setup of kernel/pcb.c. The blocks' fields and the
-- heap's header words are separate maps. Console text is kept as strings, in order.
pub mod Free
pub mod Valid
use Prim.Native.String.{String}
use mpx.Base.{
  ℕ, ◌+◌, Bool, true, false, not, ◌&&◌, ◌||◌, Option, none, some, List, [], ◌∷◌, ◌++◌, ltb, ◌==◌,
  if◌then◌else◌,
}
use mpx.Base.Int.{ℤ, pos, negsuc, ltb_ℤ, eqb_ℤ}
use mpx.Base.Run.{Run, ok, fault, ◌>>=◌}
use mpx.CString.{read, memcpy, strlen}
use mpx.Heap.{Heap}
use mpx.SysMem.{HeapFunctions, sys_alloc_mem, sys_free_mem}
use mpx.Pcb.{
  Pcb, Queues, null, min_name_len, max_name_len, user_proc, system_proc, ready_state, update,
  pcb_find,
}

pub record Processes : Type 0 where
  pub queues : Queues
  pub heap : Heap
  pub console : List String

unfoldable pub write_console : String → Processes → Processes
write_console text m = record m { console = m.console ++ (text ∷ []) }

-- `sizeof(struct pcb)` on the 32-bit target, and where `stack + 1024 - sizeof(struct context)` stands: 64 + 1024 - 64.
abbrev pub pcb_bytes : ℕ
pcb_bytes = 1100

abbrev pub stack_offset : ℕ
stack_offset = 1024

abbrev pub with_pcb : ℕ → Pcb → Processes → Processes
with_pcb p b m = record m { queues = record (m.queues) { pcb = update m.queues.pcb p b } }

module _ (kmalloc : ℕ → Heap → Run (ℕ × Heap)) (functions : HeapFunctions) where
  unfoldable pub pcb_allocate : Processes → Run (ℕ × Processes)
  unfolding sys_alloc_mem write_console
  pcb_allocate m = sys_alloc_mem kmalloc functions pcb_bytes m.heap >>= λ (p, h).
      let m₁ = record m { heap = h } in
      if p == null
      then ok (null, write_console "PCB allocation failed." m₁)
      else ok (
        p,
        with_pcb p
            (record (m₁.queues.pcb p) {
              class = negsuc 0;
              priority = negsuc 0;
              state = negsuc 0;
              next_pcb = null;
              prev_pcb = null;
            })
            m₁,
      )

  -- `sys_free_mem(ptr)`, its result dropped
  unfoldable pub release_at : ℕ → Processes → Run Processes
  unfolding sys_free_mem
  release_at ptr m = sys_free_mem functions ptr m.heap >>= λ (_, h). ok (record m { heap = h })

  -- The name stands at the block's own address. `false` is the result 0.
  unfoldable pub pcb_free : ℕ → Processes → Run (Bool × Processes)
  unfolding release_at write_console
  pcb_free old_pcb m =
      if old_pcb == null
      then ok (true, write_console "The PCB to be removed could not be found. Please try again." m)
      else (read (m.queues.pcb old_pcb).name >>= λ c.
          (if not (c == 0) then release_at old_pcb m else ok m) >>= λ m₁.
          release_at old_pcb m₁ >>= λ m₂. ok (false, m₂))

  -- `pcb_free(pcbPtr); return NULL;`
  unfoldable pub discard : ℕ → Processes → Run (ℕ × Processes)
  unfolding pcb_free
  discard p m = pcb_free p m >>= λ (_, m₁). ok (null, m₁)

  -- The arguments that `pcb_setup` rejects; the name is NULL or the bytes from its address on.
  unfoldable pub bad_arguments : Option (List ℕ) → (class priority : ℤ) → Run Bool
  bad_arguments name class priority =
      if ltb_ℤ priority (pos 0) || ltb_ℤ (pos 9) priority
      then ok true
      else if not (eqb_ℤ class user_proc) && not (eqb_ℤ class system_proc)
      then ok true
      else elim name [
        | none ↦ ok true
        | some s ↦ (strlen s >>= λ n. ok (ltb n min_name_len || ltb max_name_len n))
      ]

  -- The fields that `pcb_setup` sets; the copy of the name includes its NUL.
  unfoldable pub fill_pcb : ℕ → Option (List ℕ) → (class priority : ℤ) → Processes → Run Processes
  fill_pcb p none class priority m = fault
  fill_pcb p (some name) class priority m = strlen name >>= λ n.
      memcpy (m.queues.pcb p).name name (n + 1) >>= λ copied. ok (
        with_pcb p
          (record (m.queues.pcb p) {
            name = copied;
            class = class;
            priority = priority;
            state = ready_state;
            stack_top = p + stack_offset;
          })
          m)

  unfoldable pub pcb_setup :
      ℕ → Option (List ℕ) → (class priority : ℤ) → Processes → Run (ℕ × Processes)
  unfolding pcb_allocate discard bad_arguments fill_pcb write_console
  pcb_setup fuel name class priority m = pcb_allocate m >>= λ (p, m₁).
      if p == null
      then ok (null, m₁)
      else (bad_arguments name class priority >>= λ bad.
          if bad
          then discard p m₁
          else (fill_pcb p name class priority m₁ >>= λ m₂.
              pcb_find fuel (m₂.queues.pcb p).name m₂.queues >>= λ (found, texts).
              let m₃ = record m₂ { console = m₂.console ++ texts } in
              if not (found == null)
              then discard p (write_console "Name already in use.\n" m₃)
              else ok (p, m₃)))
