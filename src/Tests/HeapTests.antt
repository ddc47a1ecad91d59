-- ===== src/Tests/HeapTests.antt =====
-- A heap of two blocks: 32 bytes in use at 100, and 40 free ones behind.
use mpx.Base.{ℕ, ◌≡◌, refl, ◌⊎◌, true, false, List, [], ◌∷◌, arith, ◌==◌, if◌then◌else◌}
use mpx.Base.Run.{Returns}
use mpx.Heap.{Heap, null, roundup, initialize_heap, allocate_memory, free_memory}
use mpx.Heap.Blocks.{Block, IsHeap}
use mpx.Heap.Alloc.{first_fit, allocate_memory-first_fit}
use mpx.Heap.Free.{release}
use mpx.Heap.Release.{FreeOutcome, free_memory-release}
use mpx.Heap.Client.{
  Grown, free_memory-allocate_memory, allocate_memory-Grown, allocate_memory_wraps,
}

abbrev two_words : ℕ → ℕ
two_words a = if a == 100 then 32 else if a == 136 then 43 else 0

abbrev two_block_heap : Heap
two_block_heap = record { memlist = 100; word = two_words }

abbrev two_blocks : List Block
two_blocks = record { size = 32; free = false } ∷ record { size = 40; free = true } ∷ []

two_blocks-IsHeap : IsHeap two_block_heap two_blocks
two_blocks-IsHeap = record {
  chain = (refl, (refl, tt));
  fits = (omega arith, refl, (omega arith, refl, omega arith));
  inhabited = refl;
}

-- the heap of 64 bytes that `initialize_heap` makes at the address 100
initial_word : (initialize_heap (λ size. 100) 62 two_words).word 100 ≡ 67
unfolding initialize_heap
initial_word = refl

allocate_memory-first_fit_example :
    Returns
      (λ (p, h').
        (p ≡ (first_fit (roundup 10) 100 two_blocks).0)
        × IsHeap h' (first_fit (roundup 10) 100 two_blocks).1
        × (h'.memlist ≡ 100))
      (allocate_memory 3 10 two_block_heap)
allocate_memory-first_fit_example =
    allocate_memory-first_fit 3 10 two_block_heap two_blocks two_blocks-IsHeap (omega arith)

free_memory-release_example :
    FreeOutcome 100 (release 104 100 two_blocks) (free_memory 3 104 two_block_heap)
free_memory-release_example =
    free_memory-release 3 104 two_block_heap two_blocks two_blocks-IsHeap (omega arith)

free_memory-allocate_memory_example :
    Returns
      (λ (p, h').
        (p ≡ null)
        ⊎ Returns (λ (failed, h''). (failed ≡ false) × IsHeap h'' two_blocks) (free_memory 4 p h'))
      (allocate_memory 4 10 two_block_heap)
free_memory-allocate_memory_example =
    free_memory-allocate_memory 4 10 two_block_heap two_blocks two_blocks-IsHeap (refl, (refl, tt))
      (omega arith)

allocate_memory-Grown_example :
    Returns
      (λ (p, h').
        ((p ≡ null) × IsHeap h' two_blocks)
        ⊎ ((bs' : List Block) × IsHeap h' bs' × Grown (roundup 10) p 100 two_blocks bs'))
      (allocate_memory 3 10 two_block_heap)
allocate_memory-Grown_example =
    allocate_memory-Grown 3 10 two_block_heap two_blocks two_blocks-IsHeap (omega arith)

allocate_memory_wraps_example :
    allocate_memory 3 4294967294 two_block_heap ≡ allocate_memory 3 0 two_block_heap
allocate_memory_wraps_example =
    allocate_memory_wraps 3 4294967294 two_block_heap (omega arith) (omega arith)
