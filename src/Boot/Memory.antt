-- ===== src/Boot/Memory.antt =====
-- The heap of kernel/kmain.c: its first three blocks, for the driver and the two processes.
use mathlib.Core.Path.{subst, ap₂}
use mpx.Base.{
  ℕ, zero, suc, ◌+◌, ◌<◌, ◌≡◌, ◌≢◌, refl, ◌∙◌, ap, true, false, ◌||◌, List, [], ◌∷◌, arith, ◌==◌,
  length, Bool-cases, inl, inr,
}
use mpx.Base.Int.{ℤ, ◌<ℤ◌, ◌≤ℤ◌}
use mpx.Base.Run.{ok, returned}
use mpx.Heap.{Heap, roundup, initialize_heap, allocate_memory}
use mpx.Heap.Blocks.{Block, IsHeap}
use mpx.Heap.Alloc.{first_fit, carve, allocate_memory-first_fit}
use mpx.Pcb.Queue.{has, Distinct}
use mpx.Pcb.Order.{Sorted}

abbrev pub kernel_heap : ℕ
kernel_heap = 0xd000000

abbrev taken : ℕ → Block
taken size = record { size = size; free = false }

abbrev unused : ℕ → Block
unused size = record { size = size; free = true }

-- the blocks before and after the allocations of 52, 1,100 and 1,100 bytes
abbrev pub boot_blocks : ℕ → List Block
boot_blocks zero = unused 50000 ∷ []
boot_blocks (suc zero) = taken 52 ∷ unused 49944 ∷ []
boot_blocks (suc (suc zero)) = taken 52 ∷ taken 1100 ∷ unused 48840 ∷ []
boot_blocks _ = taken 52 ∷ taken 1100 ∷ taken 1100 ∷ unused 47736 ∷ []

abbrev pub commhand_block : ℕ
commhand_block = kernel_heap + 60

abbrev pub idle_block : ℕ
idle_block = kernel_heap + 1164

pub initial-IsHeap :
    (word : ℕ → ℕ) → IsHeap (initialize_heap (λ size. kernel_heap) 50000 word) (boot_blocks 0)
unfolding initialize_heap
initial-IsHeap word = record {
  chain = (refl, tt);
  fits = (omega arith, refl, omega arith);
  inhabited = refl;
}

-- The next block of the heap that starts at `kernel_heap`.
next_block :
    (fuel sz p : ℕ) (h : Heap) (bs bs' : List Block)
    → IsHeap h bs
    → h.memlist ≡ kernel_heap
    → length bs < fuel
    → first_fit (roundup sz) kernel_heap bs ≡ (p, bs')
    → (h' : Heap) × (allocate_memory fuel sz h ≡ ok (p, h'))
      × IsHeap h' bs'
      × (h'.memlist ≡ kernel_heap)
next_block fuel sz p h bs bs' is start enough fits =
    let (r, run, (found, holds, same)) =
      returned (allocate_memory-first_fit fuel sz h bs is enough) in
    let here : first_fit (roundup sz) h.memlist bs ≡ (p, bs') =
      ap (λ a. first_fit (roundup sz) a bs) start ∙ fits in
    (
      r.1,
      run ∙ ap (λ a. ok (a, r.1)) (found ∙ ap (λ (x : ℕ × List Block). x.0) here),
      subst (IsHeap r.1) (ap (λ (x : ℕ × List Block). x.1) here) holds,
      same ∙ start,
    )

first_fits :
    (first_fit (roundup 52) kernel_heap (boot_blocks 0) ≡ (kernel_heap + 4, boot_blocks 1))
    × (first_fit (roundup 1100) kernel_heap (boot_blocks 1) ≡ (commhand_block, boot_blocks 2))
    × (first_fit (roundup 1100) kernel_heap (boot_blocks 2) ≡ (idle_block, boot_blocks 3))
unfolding first_fit carve
first_fits = (refl, refl, refl)

-- the three heaps that the allocations leave
pub record BootHeaps (fuel : ℕ) (h : Heap) : Type 0 where
  pub port_heap : Heap
  pub commhand_heap : Heap
  pub idle_heap : Heap
  pub port_given : allocate_memory fuel 52 h ≡ ok (kernel_heap + 4, port_heap)
  pub commhand_given : allocate_memory fuel 1100 port_heap ≡ ok (commhand_block, commhand_heap)
  pub idle_given : allocate_memory fuel 1100 commhand_heap ≡ ok (idle_block, idle_heap)
  pub final : IsHeap idle_heap (boot_blocks 3)

pub boot_heaps :
    (fuel : ℕ) (word : ℕ → ℕ)
    → 3 < fuel
    → BootHeaps fuel (initialize_heap (λ size. kernel_heap) 50000 word)
unfolding initialize_heap
boot_heaps fuel word enough =
    let (f₀, f₁, f₂) = first_fits in
    let h = initialize_heap (λ size. kernel_heap) 50000 word in
    let (h₁, r₁, is₁, m₁) =
      next_block fuel 52 (kernel_heap + 4) h (boot_blocks 0) (boot_blocks 1) (initial-IsHeap word)
        refl (omega arith) f₀ in
    let (h₂, r₂, is₂, m₂) =
      next_block fuel 1100 commhand_block h₁ (boot_blocks 1) (boot_blocks 2) is₁ m₁ (omega arith)
        f₁ in
    let (h₃, r₃, is₃, m₃) =
      next_block fuel 1100 idle_block h₂ (boot_blocks 2) (boot_blocks 3) is₂ m₂ (omega arith) f₂ in
    record {
      port_heap = h₁;
      commhand_heap = h₂;
      idle_heap = h₃;
      port_given = r₁;
      commhand_given = r₂;
      idle_given = r₃;
      final = is₃;
    }

-- A sorted queue of just two processes.
pub two_in_order :
    (r : ℕ → ℤ) (x y : ℕ) (qs : List ℕ)
    → x ≢ y
    → r x <ℤ r y
    → ((q : ℕ) → has q qs ≡ (q == x || q == y))
    → Distinct qs
    → Sorted r qs
    → qs ≡ x ∷ y ∷ []
two_in_order r x y [] ne less members d s = absurd (ground (arith, members x))
two_in_order r x y (a ∷ []) ne less members d s = absurd (ground (arith, members x, members y, ne))
two_in_order r x y (a ∷ b ∷ []) ne less members d s = elim (Bool-cases (a == x)) [
  | inl same ↦
      let e : a ≡ x = ground arith in
      let e' : b ≡ y = ground (arith, members y, e, ne) in ap₂ (λ u v. u ∷ v ∷ []) e e'
  | inr other ↦
      let e : a ≡ y = ground (arith, members a) in
      let e' : b ≡ x = ground (arith, members x) in
      let order : r y ≤ℤ r x = subst (λ u. r u ≤ℤ r x) e (subst (λ u. r a ≤ℤ r u) e' s.0.0) in
      absurd (ground (arith, order, less))
]
two_in_order r x y (a ∷ b ∷ c ∷ qs) ne less members d s =
    absurd (ground (arith, members a, members b, members c, d))
