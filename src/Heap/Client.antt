-- ===== src/Heap/Client.antt =====
-- What a caller of lib/mem.c may rely on: block lists aside, from `allocate_memory` and
-- `free_memory` themselves.
use mathlib.Core.Path.{subst}
use mathlib.Core.Bool.{true, false≢true}
use mathlib.Core.Option.{some}
use mpx.Base.{
  sym, ◌∙◌, ◌-◌, Bool-cases, ◌==◌, ==_iff, ℕ, ◌+◌, ◌≤◌, ◌<◌, ◌≡◌, ◌≢◌, refl, ◌⊎◌, inl, inr, false,
  ◌&&◌, List, [], ◌∷◌, ◌++◌, arith, ltb, leb, if_cases, length, ap,
}
use mpx.Base.Run.{Returns, Returns-mono}
use mpx.Heap.{
  Heap, null, header_bytes, size_mod, start, allocate_loop, allocate_memory, free_memory, roundup,
}
use mpx.Heap.Blocks.{Block, after, IsHeap}
use mpx.Heap.Alloc.{after_split, carve, first_fit, allocate_memory-first_fit}
use mpx.Heap.Release.{FreeOutcome, free_memory-release}
use mpx.Heap.Free.{release}
use mpx.Heap.Layout.{Separated, release-first_fit}

length-first_fit : (sz a : ℕ) (bs : List Block) → length (first_fit sz a bs).1 ≤ length bs + 1
unfolding first_fit carve
length-first_fit sz a [] = omega arith
length-first_fit sz a (b ∷ bs) = ground (arith, length-first_fit sz (after a b) bs)

-- In a heap whose free blocks stand apart, with fuel for one more block than it has,
-- `allocate_memory` returns; its result is NULL, or `free_memory` of it succeeds and leaves the
-- blocks as they were before both.
pub free_memory-allocate_memory :
    (fuel sz : ℕ) (h : Heap) (bs : List Block)
    → IsHeap h bs
    → Separated false bs
    → length bs + 1 < fuel
    → Returns
        (λ (p, h').
          (p ≡ null)
          ⊎ Returns (λ (failed, h''). (failed ≡ false) × IsHeap h'' bs) (free_memory fuel p h'))
        (allocate_memory fuel sz h)
free_memory-allocate_memory fuel sz h bs is s l =
    Returns-mono (allocate_memory-first_fit fuel sz h bs is (omega arith)) λ (p, h') (e, is', same).
      elim (Bool-cases (p == null)) [
        | inl none_fits ↦ inl ((==_iff p null).0 none_fits)
        | inr found ↦
            let bs' = (first_fit (roundup sz) h.memlist bs).1 in
            let given : p ≢ null = ground (arith, found) in
            let back : release p h'.memlist bs' ≡ some bs =
              rw (e, same) (release-first_fit (roundup sz) h.memlist bs s (rw e at given)) in
            inr (
              Returns-mono
                (subst (λ o. FreeOutcome h'.memlist o (free_memory fuel p h')) back
                  (free_memory-release fuel p h' bs' is'
                    (omega (arith, length-first_fit (roundup sz) h.memlist bs))))
                λ (failed, h'') (good, is'', _). (good, is''))
      ]

-- An allocated block: its bytes start at `p`, and it has `n` of them.
abbrev pub Owned : ℕ → ℕ → ℕ → List Block → Type 0
Owned p n a [] = ⊥
Owned p n a (b ∷ bs) = ((p ≡ start a) × (n ≡ b.size) × (b.free ≡ false)) ⊎ Owned p n (after a b) bs

-- A block of at least `sz` bytes at `p` has joined those of `bs`, which are all still there, and
-- none of them starts at `p`.
abbrev pub Grown : ℕ → ℕ → ℕ → List Block → List Block → Type 0
Grown sz p a bs bs' =
    ((n : ℕ) × (sz ≤ n) × Owned p n a bs')
    × ((q k : ℕ) → Owned q k a bs → (q ≢ p) × Owned q k a bs')

Owned-ge : (p n a : ℕ) (bs : List Block) → Owned p n a bs → start a ≤ p
Owned-ge p n a [] o = elim o [ ]
Owned-ge p n a (b ∷ bs) (inl o) = omega arith
Owned-ge p n a (b ∷ bs) (inr o) = omega (arith, Owned-ge p n (after a b) bs o)

carve-Grown :
    (sz a : ℕ) (b : Block) (bs : List Block)
    → sz ≤ b.size
    → b.free ≡ true
    → Grown sz (start a) a (b ∷ bs) (carve sz b ++ bs)
unfolding carve
carve-Grown sz a b bs le fr =
    if_cases (λ l. Grown sz (start a) a (b ∷ bs) (l ++ bs)) (ltb (sz + header_bytes) b.size)
      (λ big. ((sz, omega arith, inl (refl, refl, refl)), kept big))
      (λ _. ((b.size, le, inl (refl, refl, refl)), kept'))
  where
    kept' :
        (q k : ℕ)
        → Owned q k a (b ∷ bs)
        → (q ≢ start a) × Owned q k a (record { size = b.size; free = false } ∷ bs)
    kept' q k (inl o) = absurd (false≢true (sym o.2 ∙ fr))
    kept' q k (inr o) = (omega (arith, Owned-ge q k (after a b) bs o), inr o)

    kept :
        ltb (sz + header_bytes) b.size ≡ true
        → (q k : ℕ) → Owned q k a (b ∷ bs)
        → (q ≢ start a)
          × Owned q k a (
              record { size = sz; free = false }
              ∷ record { size = b.size - sz - header_bytes; free = true }
              ∷ bs)
    kept big q k (inl o) = absurd (false≢true (sym o.2 ∙ fr))
    kept big q k (inr o) = (
      omega (arith, Owned-ge q k (after a b) bs o),
      inr (inr (subst (λ x. Owned q k x bs) (after_split sz a b big) o)),
    )

cons-Grown :
    (sz p a : ℕ) (b : Block) (bs bs' : List Block)
    → start (after a b) ≤ p
    → Grown sz p (after a b) bs bs'
    → Grown sz p a (b ∷ bs) (b ∷ bs')
cons-Grown sz p a b bs bs' ge ((n, le, o), kept) = ((n, le, inr o), kept')
  where
    kept' : (q k : ℕ) → Owned q k a (b ∷ bs) → (q ≢ p) × Owned q k a (b ∷ bs')
    kept' q k (inl o') = (omega arith, inl o')
    kept' q k (inr o') = ((kept q k o').0, inr (kept q k o').1)

first_fit-Grown :
    (sz a : ℕ) (bs : List Block)
    → ((first_fit sz a bs).0 ≡ null) × ((first_fit sz a bs).1 ≡ bs)
      ⊎ (start a ≤ (first_fit sz a bs).0)
        × Grown sz (first_fit sz a bs).0 a bs (first_fit sz a bs).1
unfolding first_fit
first_fit-Grown sz a [] = inl (refl, refl)
first_fit-Grown sz a (b ∷ bs) = elim (Bool-cases (leb sz b.size && b.free)) [
  | inl fit ↦ rw fit (inr (omega arith, carve-Grown sz a b bs (ground arith) (ground arith)))
  | inr miss ↦ rw miss (elim (first_fit-Grown sz (after a b) bs) [
    | inl (e, same) ↦ inl (e, ap (λ l. b ∷ l) same)
    | inr (ge, grown) ↦ inr (omega arith, cons-Grown sz _ a b bs _ ge grown)
  ])
]

-- From a heap that holds blocks, with more fuel than blocks, `allocate_memory` returns: either NULL, and the blocks stay, or the address of a
-- block of at least the rounded size that no allocated block has, and every allocated block stays
-- allocated at its place with its size.
pub allocate_memory-Grown :
    (fuel sz : ℕ) (h : Heap) (bs : List Block)
    → IsHeap h bs
    → length bs < fuel
    → Returns
        (λ (p, h').
          ((p ≡ null) × IsHeap h' bs)
          ⊎ ((bs' : List Block) × IsHeap h' bs' × Grown (roundup sz) p h.memlist bs bs'))
        (allocate_memory fuel sz h)
allocate_memory-Grown fuel sz h bs is l =
    Returns-mono (allocate_memory-first_fit fuel sz h bs is l) λ (p, h') (e, is', same).
      rw e (elim (first_fit-Grown (roundup sz) h.memlist bs) [
        | inl (none_fits, kept) ↦ inl (none_fits, rw kept at is')
        | inr (_, grown) ↦ inr ((first_fit (roundup sz) h.memlist bs).1, is', grown)
      ])

-- `roundup` wraps: a request of 2 ^ 32 - 3 bytes or more, as far as size_t goes, is served as one
-- of no bytes.
pub allocate_memory_wraps :
    (fuel sz : ℕ) (h : Heap)
    → size_mod - 3 ≤ sz
    → sz < size_mod
    → allocate_memory fuel sz h ≡ allocate_memory fuel 0 h
unfolding allocate_memory
allocate_memory_wraps fuel sz h lo hi = ap (λ n. allocate_loop fuel n h.memlist h) (ground arith)
