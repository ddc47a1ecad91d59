-- ===== src/SysMem.antt =====
-- sys_set_heap_functions, sys_alloc_mem and sys_free_mem of lib/core.c.
use mpx.Base.{ℕ, Bool, true, Option, none, some}
use mpx.Base.Run.{Run, ok}
use mpx.Heap.{Heap}

-- `malloc_function` and `free_function`, or NULL; `true` is the result -1.
pub record HeapFunctions : Type 0 where
  pub malloc_function : Option (ℕ → Heap → Run (ℕ × Heap))
  pub free_function : Option (ℕ → Heap → Run (Bool × Heap))

unfoldable pub sys_set_heap_functions :
    (ℕ → Heap → Run (ℕ × Heap)) → (ℕ → Heap → Run (Bool × Heap)) → HeapFunctions
sys_set_heap_functions alloc_fn free_fn = record {
  malloc_function = some alloc_fn;
  free_function = some free_fn;
}

unfoldable pub sys_alloc_mem :
    (kmalloc : ℕ → Heap → Run (ℕ × Heap)) → HeapFunctions → ℕ → Heap → Run (ℕ × Heap)
sys_alloc_mem kmalloc functions size h = elim functions.malloc_function [
  | some malloc ↦ malloc size h
  | none ↦ kmalloc size h
]

unfoldable pub sys_free_mem : HeapFunctions → ℕ → Heap → Run (Bool × Heap)
sys_free_mem functions ptr h = elim functions.free_function [
  | some free ↦ free ptr h
  | none ↦ ok (true, h)
]
