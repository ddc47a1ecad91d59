-- ===== src/Pcb/Setup/Free.antt =====
-- What pcb_free of kernel/pcb.c does with the heap of lib/mem.c.
use mathlib.Core.Path.{fun_ext}
use mpx.Base.{ℕ, ◌<◌, ◌≡◌, refl, ◌∙◌, ap, sym, Bool, false, some, List, ◌∷◌, arith, ◌==◌, length}
use mpx.Base.Run.{Run, ok, fault, out_of_fuel, ◌>>=◌}
use mpx.Heap.{Heap, free_memory}
use mpx.Heap.Blocks.{Block, IsHeap}
use mpx.Heap.Twice.{free_memory_twice}
use mpx.SysMem.{HeapFunctions, sys_free_mem}
use mpx.Pcb.{null}
use mpx.Pcb.Setup.{Processes, release_at, pcb_free}

sys_free_mem-free :
    (functions : HeapFunctions) (free : ℕ → Heap → Run (Bool × Heap)) (p : ℕ) (h : Heap)
    → functions.free_function ≡ some free
    → sys_free_mem functions p h ≡ free p h
unfolding sys_free_mem
sys_free_mem-free functions free p h e = rw e refl

>>=-assoc {a b c} :
    {X : Type a} {Y : Type b} {Z : Type c} (r : Run X) (f : X → Run Y) (g : Y → Run Z)
    → ((r >>= f) >>= g) ≡ (r >>= λ x. f x >>= g)
>>=-assoc (ok x) f g = refl
>>=-assoc fault f g = refl
>>=-assoc out_of_fuel f g = refl

abbrev with_heap : Processes → Bool × Heap → Run Processes
with_heap m r = ok (record m { heap = r.1 })

abbrev success : Processes → Run (Bool × Processes)
success m = ok (false, m)

both :
    (r : Run (Bool × Heap)) (k : Heap → Run (Bool × Heap)) (m : Processes)
    → (r >>= with_heap m >>= λ m₁. k m₁.heap >>= with_heap m₁ >>= success)
      ≡ (r >>= λ x. k x.1 >>= λ y. success (record m { heap = y.1 }))
both (ok (_, h)) k m = >>=-assoc (k h) (with_heap m) success
both fault k m = refl
both out_of_fuel k m = refl

module _ (kmalloc : ℕ → Heap → Run (ℕ × Heap)) (functions : HeapFunctions) where
  free_twice :
      (p : ℕ) (m : Processes)
      → 0 < p
      → (c : ℕ) (rest : List ℕ) → 0 < c
      → (m.queues.pcb p).name ≡ c ∷ rest
      → pcb_free kmalloc functions p m ≡ (
          sys_free_mem functions p m.heap >>= λ x.
          sys_free_mem functions p x.1 >>= λ y. success (record m { heap = y.1 }))
  unfolding pcb_free release_at
  free_twice p m low c rest named e =
      let here : (p == null) ≡ false = ground arith in
      let full : (c == 0) ≡ false = ground arith in
      rw (here, e, full)
        (both (sys_free_mem functions p m.heap) (λ h. sys_free_mem functions p h) m)

  -- With the heap functions of lib/mem.c, a heap that holds blocks and more fuel than blocks,
  -- `pcb_free` of a process with a name reads through NULL: the name stands at the process's own
  -- address, which is so freed twice.
  pub pcb_free_faults :
      (fuel p : ℕ) (m : Processes) (bs : List Block)
      → functions.free_function ≡ some (free_memory fuel)
      → IsHeap m.heap bs
      → length bs < fuel
      → 0 < p
      → (c : ℕ) (rest : List ℕ) → 0 < c
      → (m.queues.pcb p).name ≡ c ∷ rest
      → pcb_free kmalloc functions p m ≡ fault
  pcb_free_faults fuel p m bs set is l low c rest named e =
      let frees : sys_free_mem functions p ≡ free_memory fuel p =
        fun_ext λ h. sys_free_mem-free functions (free_memory fuel) p h set in
      let finish : Bool × Heap → Run (Bool × Processes) = λ y. success (record m { heap = y.1 }) in
      free_twice p m low c rest named e
      ∙ ap (λ (f : Heap → Run (Bool × Heap)). f m.heap >>= λ x. f x.1 >>= finish) frees
      ∙ sym (>>=-assoc (free_memory fuel p m.heap) (λ x. free_memory fuel p x.1) finish)
      ∙ ap (λ (r : Run (Bool × Heap)). r >>= finish) (free_memory_twice fuel p m.heap bs is l)
