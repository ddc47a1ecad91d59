-- ===== src/MemCommand/Listing.antt =====
-- What `mem_show` of user/mem.c lists.
use mpx.Base.{
  ℕ, zero, suc, ◌%◌, ◌<◌, ◌≡◌, refl, ◌∙◌, Bool, true, false, List, [], ◌∷◌, ◌++◌, arith, ◌==◌,
  if◌then◌else◌, length,
}
use mpx.Base.Run.{ok, ◌>>=◌}
use mpx.Heap.{Heap, null, start, mcb_next}
use mpx.Heap.Blocks.{
  Block, is_nil, header, after, Chain, Fits, entry, IsHeap, mcb_size-header, mcb_isfree-header,
  mcb_next-Chain,
}
use mpx.MemCommand.{
  Printed, kind, block, Show, all, allocated_blocks, free_blocks, is_all, is_shown, show_block,
  show_loop, mem_show,
}

-- the calls of `printf` for a block, and for the blocks from `a` on
abbrev pub printed_of : Show → (free : Bool) → (address size : ℕ) → List Printed
printed_of all free address size = kind free ∷ block address size ∷ []
printed_of allocated_blocks true address size = []
printed_of allocated_blocks false address size = block address size ∷ []
printed_of free_blocks true address size = block address size ∷ []
printed_of free_blocks false address size = []

abbrev pub printed_block : Show → ℕ → Block → List Printed
printed_block which a b = printed_of which b.free (start a) b.size

body_printed :
    (which : Show) (free : Bool) (address size : ℕ)
    → (if is_all which then kind free ∷ [] else [])
        ++ (if is_shown which free then block address size ∷ [] else [])
      ≡ printed_of which free address size
body_printed all free address size = refl
body_printed allocated_blocks true address size = refl
body_printed allocated_blocks false address size = refl
body_printed free_blocks true address size = refl
body_printed free_blocks false address size = refl

abbrev pub printed_blocks : Show → ℕ → List Block → List Printed
printed_blocks which a [] = []
printed_blocks which a (b ∷ bs) = printed_block which a b ++ printed_blocks which (after a b) bs

show_block-printed :
    (which : Show) (b : Block) (last : Bool) (a : ℕ)
    → b.size % 4 ≡ 0
    → show_block which (header b last) a ≡ printed_block which a b
unfolding show_block
show_block-printed which b last a e =
    rw (mcb_isfree-header b last e, mcb_size-header b last e)
      (body_printed which b.free (start a) b.size)

show_loop-stop : (fuel : ℕ) (which : Show) (h : Heap) → show_loop (suc fuel) which null h ≡ ok []
unfolding show_loop
show_loop-stop fuel which h = refl

show_loop-go :
    (fuel : ℕ) (which : Show) (a next : ℕ) (h : Heap)
    → 0 < a
    → mcb_next h.word a ≡ ok next
    → show_loop (suc fuel) which a h
      ≡ (show_loop fuel which next h >>= λ printed. ok (show_block which (h.word a) a ++ printed))
unfolding show_loop
show_loop-go fuel which a next h low e =
    let here : (a == null) ≡ false = ground arith in rw (e, here) refl

show_loop-printed :
    (fuel : ℕ) (which : Show) (a : ℕ) (h : Heap) (bs : List Block)
    → Chain h.word a bs
    → Fits a bs
    → length bs < fuel
    → show_loop fuel which (entry a bs) h ≡ ok (printed_blocks which a bs)
show_loop-printed zero which a h bs c f m = absurd (omega arith)
show_loop-printed (suc fuel) which a h [] c f m = show_loop-stop fuel which h
show_loop-printed (suc fuel) which a h (b ∷ bs) c f m =
    show_loop-go fuel which a (entry (after a b) bs) h f.0 (mcb_next-Chain h.word a b bs c f)
    ∙ rw
        (
          show_loop-printed fuel which (after a b) h bs c.1 f.2 (omega arith),
          c.0,
          show_block-printed which b (is_nil bs) a f.1,
        )
        refl

-- `mem_show`, on a heap whose blocks are fewer than the fuel, prints in the order of their addresses
-- each block that the choice names, with its address and size, once: all of them, with their kinds,
-- for ALL; for ALLOCATED the blocks that are not free; for FREEBLOCKS those that are free.
pub mem_show-printed :
    (fuel : ℕ) (which : Show) (h : Heap) (bs : List Block)
    → IsHeap h bs
    → length bs < fuel
    → mem_show fuel which h ≡ ok (printed_blocks which h.memlist bs)
unfolding mem_show
mem_show-printed fuel which h [] is m = absurd (ground (arith, is.inhabited))
mem_show-printed fuel which h (b ∷ bs) is m =
    show_loop-printed fuel which h.memlist h (b ∷ bs) is.chain is.fits m
