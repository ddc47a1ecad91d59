-- ===== src/Heap/Alloc.antt =====
-- `allocate_memory` against first fit on the list of blocks.
use mathlib.Core.Path.{subst}
use mathlib.Core.Bool.{false≢true}
use mpx.Base.{
  sym, ap, ℕ, zero, suc, ◌+◌, ◌-◌, ◌%◌, ◌≤◌, ◌<◌, ◌≡◌, refl, ◌∙◌, ◌⊎◌, inl, inr, Bool, true, false,
  ◌&&◌, List, [], ◌∷◌, ◌++◌, arith, ltb, leb, if◌then◌else◌, Bool-cases, ltb→lt, length,
}
use mpx.Base.Run.{ok, Returns, returns, Returns-mono}
use mpx.Heap.{
  Heap, null, header_bytes, size_mod, start, take_block, allocate_loop, allocate_memory, roundup,
}
use mpx.Heap.Blocks.{
  Block, is_nil, header, after, Chain, Fits, entry, IsHeap, mcb_size-header, mcb_isfree-header,
  mcb_isend-header, Fits-bound, mcb_next-Chain, Chain-frame,
}

-- what a request of `sz` bytes leaves of the block that it takes
unfoldable pub carve : ℕ → Block → List Block
carve sz b =
    if ltb (sz + header_bytes) b.size
    then record { size = sz; free = false }
      ∷ record { size = b.size - sz - header_bytes; free = true }
      ∷ []
    else record { size = b.size; free = false } ∷ []

-- First fit from address `a`: the address of the bytes (NULL if no block fits) and the blocks left.
unfoldable pub first_fit : ℕ → ℕ → List Block → ℕ × List Block
first_fit sz a [] = (null, [])
first_fit sz a (b ∷ bs) =
    if leb sz b.size && b.free
    then (start a, carve sz b ++ bs)
    else (let (p, rest) = first_fit sz (after a b) bs in (p, b ∷ rest))

-- The three cases of an address after a block has been taken.
module _ (sz a : ℕ) (b : Block) (last : Bool) (word : ℕ → ℕ) (held : word a ≡ header b last)
    (al : sz % 4 ≡ 0) (size_al : b.size % 4 ≡ 0) (bound : b.size + header_bytes < size_mod)
    (fr : b.free ≡ true) where
  split_first :
      sz + header_bytes < b.size
      → take_block sz a word a ≡ header (record { size = sz; free = false }) false
  unfolding take_block
  split_first big = ground (arith, mcb_size-header b last size_al)

  split_second :
      sz + header_bytes < b.size
      → take_block sz a word (start a + sz)
        ≡ header (record { size = b.size - sz - header_bytes; free = true }) last
  unfolding take_block
  split_second big = ground (arith, mcb_size-header b last size_al, mcb_isend-header b last size_al)

  whole_first :
      sz ≤ b.size
      → ¬ (sz + header_bytes < b.size)
      → take_block sz a word a ≡ header (record { size = b.size; free = false }) last
  unfolding take_block
  whole_first le tight = ground (arith, mcb_size-header b last size_al)

  take_block_elsewhere :
      (x : ℕ) → sz ≤ b.size → (x < a) ⊎ (after a b ≤ x) → take_block sz a word x ≡ word x
  unfolding take_block
  take_block_elsewhere x le out = ground (arith, mcb_size-header b last size_al)

block_bound :
    (a : ℕ) (b : Block) (bs : List Block) → Fits a (b ∷ bs) → b.size + header_bytes < size_mod
block_bound a b bs f = omega (arith, Fits-bound (after a b) bs f.2)

pub after_split :
    (sz a : ℕ) (b : Block)
    → ltb (sz + header_bytes) b.size ≡ true
    → after a b ≡ start a + sz + header_bytes + (b.size - sz - header_bytes)
after_split sz a b big = omega (arith, ltb→lt)

take_block-Chain :
    (sz a : ℕ) (b : Block) (bs : List Block) (word : ℕ → ℕ)
    → sz % 4 ≡ 0
    → sz ≤ b.size
    → b.free ≡ true
    → Chain word a (b ∷ bs)
    → Fits a (b ∷ bs)
    → Chain (take_block sz a word) a (carve sz b ++ bs)
unfolding carve
take_block-Chain sz a b bs word al le fr (held, c) (low, al', f) =
    elim (Bool-cases (ltb (sz + header_bytes) b.size)) [
      | inl big ↦ rw big (
        split_first sz a b last word held al al' bound fr (omega (arith, ltb→lt)),
        (
          split_second sz a b last word held al al' bound fr (omega (arith, ltb→lt)),
          subst (λ x. Chain (take_block sz a word) x bs) (after_split sz a b big) rest,
        ),
      )
      | inr tight ↦
          rw tight (whole_first sz a b last word held al al' bound fr le (ground arith), rest)
    ]
  where
    last : Bool
    last = is_nil bs

    bound : b.size + header_bytes < size_mod
    bound = block_bound a b bs (low, al', f)

    rest : Chain (take_block sz a word) (after a b) bs
    rest =
        Chain-frame word (take_block sz a word) (after a b) bs
          (λ x h. take_block_elsewhere sz a b last word held al al' bound fr x le (inr h)) c

allocate_loop-null : (fuel sz : ℕ) (h : Heap) → allocate_loop (suc fuel) sz null h ≡ ok (null, h)
unfolding allocate_loop
allocate_loop-null fuel sz h = refl

-- One round of the loop at the block `b`.
module _ (fuel sz a : ℕ) (b : Block) (bs : List Block) (h : Heap) (held : Chain h.word a (b ∷ bs))
    (f : Fits a (b ∷ bs)) where
  loop_hit :
      (leb sz b.size && b.free) ≡ true
      → allocate_loop (suc fuel) sz a h ≡ ok (start a, record h { word = take_block sz a h.word })
  unfolding allocate_loop
  loop_hit fit =
      ground (arith, held.0, mcb_size-header b (is_nil bs) f.1, mcb_isfree-header b (is_nil bs) f.1)

  loop_miss :
      (leb sz b.size && b.free) ≡ false
      → allocate_loop (suc fuel) sz a h ≡ allocate_loop fuel sz (entry (after a b) bs) h
  unfolding allocate_loop
  loop_miss miss = ground (
    arith,
    held.0,
    mcb_size-header b (is_nil bs) f.1,
    mcb_isfree-header b (is_nil bs) f.1,
    mcb_next-Chain h.word a b bs held f,
  )

fits_of_test :
    (b : Block) (sz : ℕ) → (leb sz b.size && b.free) ≡ true → (sz ≤ b.size) × (b.free ≡ true)
fits_of_test b sz fit = (ground arith, ground arith)

is_nil-first_fit : (sz a : ℕ) (bs : List Block) → is_nil (first_fit sz a bs).1 ≡ is_nil bs
unfolding first_fit carve
is_nil-first_fit sz a [] = refl
is_nil-first_fit sz a (b ∷ bs) = ground arith

-- where the loop of `allocate_memory` stops, and what it leaves
Allocated : ℕ → ℕ → List Block → Heap → ℕ × Heap → Type 0
Allocated sz a bs h (p, h') =
    (p ≡ (first_fit sz a bs).0)
    × Chain h'.word a (first_fit sz a bs).1
    × (h'.memlist ≡ h.memlist)
    × ((x : ℕ) → x < a → h'.word x ≡ h.word x)

allocate_loop-Allocated :
    (fuel sz a : ℕ) (bs : List Block) (h : Heap)
    → sz % 4 ≡ 0
    → Chain h.word a bs
    → Fits a bs
    → length bs < fuel
    → Returns (Allocated sz a bs h) (allocate_loop fuel sz (entry a bs) h)
unfolding Allocated first_fit
allocate_loop-Allocated zero sz a bs h al c f l = absurd (omega arith)
allocate_loop-Allocated (suc fuel) sz a [] h al c f l =
    rw allocate_loop-null (returns (refl, tt, refl, λ x _. refl))
allocate_loop-Allocated (suc fuel) sz a (b ∷ bs) h al c f l =
    elim (Bool-cases (leb sz b.size && b.free)) [
      | inl fit ↦ rw (loop_hit fuel sz a b bs h c f fit) (
          returns (
            rw fit (
              refl,
              take_block-Chain sz a b bs h.word al (fits_of_test b sz fit).0
                  (fits_of_test b sz fit).1 c f,
              refl,
              λ x lt.
                  take_block_elsewhere sz a b (is_nil bs) h.word c.0 al f.1 (block_bound a b bs f)
                    (fits_of_test b sz fit).1 x (fits_of_test b sz fit).0 (inl lt),
            )))
      | inr miss ↦ rw (loop_miss fuel sz a b bs h c f miss) (
          Returns-mono (allocate_loop-Allocated fuel sz (after a b) bs h al c.1 f.2 (omega arith))
            λ (p, h') (found, chain, same, below). rw miss (
              found,
              (
                below a (omega arith)
                    ∙ c.0
                    ∙ ap (header b) (sym (is_nil-first_fit sz (after a b) bs)),
                chain,
              ),
              same,
              λ x lt. below x (omega arith),
            ))
    ]

Fits-first_fit :
    (sz a : ℕ) (bs : List Block) → sz % 4 ≡ 0 → Fits a bs → Fits a (first_fit sz a bs).1
unfolding first_fit carve
Fits-first_fit sz a [] al f = f
Fits-first_fit sz a (b ∷ bs) al f = elim (Bool-cases (leb sz b.size && b.free)) [
  | inl fit ↦ rw fit (elim (Bool-cases (ltb (sz + header_bytes) b.size)) [
    | inl big ↦
        rw big (
          f.0,
          al,
          (omega arith, ground arith, subst (λ x. Fits x bs) (after_split sz a b big) f.2),
        )
    | inr tight ↦ rw tight f
  ])
  | inr miss ↦ rw miss (f.0, f.1, Fits-first_fit sz (after a b) bs al f.2)
]

roundup_aligned : (sz : ℕ) → roundup sz % 4 ≡ 0
roundup_aligned sz = ground arith

-- From a heap that holds the blocks `bs`, with more fuel than blocks, `allocate_memory` returns. It
-- gives the address that first fit for the rounded size finds (NULL if there is none), and leaves a
-- heap with the same `memlist` that holds the blocks of first fit.
pub allocate_memory-first_fit :
    (fuel sz : ℕ) (h : Heap) (bs : List Block)
    → IsHeap h bs
    → length bs < fuel
    → Returns
        (λ (p, h').
          (p ≡ (first_fit (roundup sz) h.memlist bs).0)
          × IsHeap h' (first_fit (roundup sz) h.memlist bs).1
          × (h'.memlist ≡ h.memlist))
        (allocate_memory fuel sz h)
unfolding allocate_memory Allocated
allocate_memory-first_fit fuel sz h [] is l = absurd (false≢true (sym is.inhabited))
allocate_memory-first_fit fuel sz h (b ∷ bs) is l =
    Returns-mono
      (allocate_loop-Allocated fuel (roundup sz) h.memlist (b ∷ bs) h (roundup_aligned sz) is.chain
        is.fits l)
      λ (p, h') (found, chain, same, _). (
        found,
        record {
          chain = rw same chain;
          fits =
              rw same (Fits-first_fit (roundup sz) h.memlist (b ∷ bs) (roundup_aligned sz) is.fits);
          inhabited = is_nil-first_fit (roundup sz) h.memlist (b ∷ bs);
        },
        same,
      )
