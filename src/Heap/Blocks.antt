-- ===== src/Heap/Blocks.antt =====
-- The heap seen as a list of blocks, and when the words of lib/mem.c hold that list.
use mpx.Base.{
  ℕ, ◌+◌, ◌%◌, ◌≤◌, ◌<◌, ◌≡◌, ◌∙◌, Bool, true, false, List, [], ◌∷◌, arith, if◌then◌else◌,
}
use mpx.Base.Run.{ok}
use mpx.Heap.{Heap, null, header_bytes, size_mod, mcb_size, mcb_isfree, mcb_isend, mcb_next}

pub record Block : Type 0 where
  pub size : ℕ
  pub free : Bool

abbrev pub is_nil {ℓ} : {A : Type ℓ} → List A → Bool
is_nil [] = true
is_nil (x ∷ xs) = false

-- the header word of a block; `last` is its END bit
abbrev pub header : Block → Bool → ℕ
header b last = b.size + (if b.free then 1 else 0) + (if last then 2 else 0)

-- the address of the block behind
abbrev pub after : ℕ → Block → ℕ
after a b = a + header_bytes + b.size

-- From `a` the words hold the blocks in order, and END marks the last one alone.
abbrev pub Chain : (ℕ → ℕ) → ℕ → List Block → Type 0
Chain word a [] = Unit {0}
Chain word a (b ∷ bs) = (word a ≡ header b (is_nil bs)) × Chain word (after a b) bs

-- The blocks stand above NULL and within the address space, with sizes that are multiples of 4.
abbrev pub Fits : ℕ → List Block → Type 0
Fits a [] = a ≤ size_mod
Fits a (b ∷ bs) = (0 < a) × (b.size % 4 ≡ 0) × Fits (after a b) bs

-- a pointer to the first block, or NULL
abbrev pub entry : ℕ → List Block → ℕ
entry a [] = null
entry a (b ∷ bs) = a

pub record IsHeap (h : Heap) (bs : List Block) : Type 0 where
  pub chain : Chain h.word h.memlist bs
  pub fits : Fits h.memlist bs
  pub inhabited : is_nil bs ≡ false

module _ (b : Block) (last : Bool) (e : b.size % 4 ≡ 0) where
  pub mcb_size-header : mcb_size (header b last) ≡ b.size
  mcb_size-header = ground arith

  pub mcb_isfree-header : mcb_isfree (header b last) ≡ b.free
  mcb_isfree-header = ground arith

  pub mcb_isend-header : mcb_isend (header b last) ≡ last
  mcb_isend-header = ground arith

pub Fits-bound : (a : ℕ) (bs : List Block) → Fits a bs → a ≤ size_mod
Fits-bound a [] f = f
Fits-bound a (b ∷ bs) f = omega (arith, Fits-bound (after a b) bs f.2)

pub mcb_next-Chain :
    (word : ℕ → ℕ) (a : ℕ) (b : Block) (bs : List Block)
    → Chain word a (b ∷ bs)
    → Fits a (b ∷ bs)
    → mcb_next word a ≡ ok (entry (after a b) bs)
unfolding mcb_next
mcb_next-Chain word a b [] c f = ground (arith, mcb_isend-header b true f.1)
mcb_next-Chain word a b (b' ∷ bs) c f =
    ground (arith, mcb_isend-header b false f.1, mcb_size-header b false f.1)

-- Words below `a` are no part of the chain.
pub Chain-frame :
    (word word' : ℕ → ℕ) (a : ℕ) (bs : List Block)
    → ((x : ℕ) → a ≤ x → word' x ≡ word x)
    → Chain word a bs
    → Chain word' a bs
Chain-frame word word' a [] same c = tt
Chain-frame word word' a (b ∷ bs) same c = (
  same a (omega arith) ∙ c.0,
  Chain-frame word word' (after a b) bs (λ x h. same x (omega arith)) c.1,
)
