-- ===== src/Heap/Release.antt =====
-- The whole of `free_memory` against `release` on the list of blocks.
use mathlib.Core.Option
use mathlib.Core.Bool.{false≢true}
use mpx.Base.{
  ℕ, zero, suc, ◌%◌, ◌<◌, ◌≡◌, refl, inl, inr, Bool, false, not, ◌&&◌, Option, some, none, List, [],
  ◌∷◌, arith, ◌==◌, Bool-cases, if_cases, length, sym,
}
use mpx.Base.Run.{Run, ok, fault, Returns, returns, Returns-mono}
use mpx.Heap.{Heap, null, start, release_block, free_memory}
use mpx.Heap.Blocks.{Block, after, Fits, entry, IsHeap, mcb_next-Chain}
use mpx.Heap.Free.{
  freed, absorb, release_behind, release, Released, free_hit, free_miss, busy_of_test,
  free_loop-Released, release_block-first, Fits-absorb, Fits-join_before, is_nil-absorb,
}

-- What a caller of `free_memory` sees, given the blocks that `release` leaves.
abbrev pub FreeOutcome : ℕ → Option (List Block) → Run (Bool × Heap) → Type 0
FreeOutcome memlist none r = r ≡ fault
FreeOutcome memlist (some bs) r =
    Returns (λ (failed, h'). (failed ≡ false) × IsHeap h' bs × (h'.memlist ≡ memlist)) r

OptionFits : ℕ → Option (List Block) → Type 0
OptionFits q none = Unit {0}
OptionFits q (some bs) = Fits q bs

OptionFits-map :
    (q : ℕ) (p : Block) (o : Option (List Block))
    → 0 < q
    → p.size % 4 ≡ 0
    → OptionFits (after q p) o
    → OptionFits q (Option.map (λ rest. p ∷ rest) o)
unfolding OptionFits
OptionFits-map q p none low al f = tt
OptionFits-map q p (some bs) low al f = (low, al, f)

Fits-release_behind :
    (ptr q : ℕ) (p : Block) (bs : List Block)
    → Fits q (p ∷ bs)
    → OptionFits q (release_behind ptr q p bs)
unfolding release_behind OptionFits
Fits-release_behind ptr q p [] f = tt
Fits-release_behind ptr q p (b ∷ bs) f =
    if_cases (OptionFits q) (start (after q p) == ptr && not b.free)
      (λ _.
        Fits-join_before q p (absorb (freed b) bs)
          (f.0, f.1, Fits-absorb (after q p) (freed b) bs f.2))
      (λ _.
        OptionFits-map q p (release_behind ptr (after q p) b bs) f.0 f.1
          (Fits-release_behind ptr (after q p) b bs f.2))

outcome :
    (h : Heap) (o : Option (List Block)) (r : Run (Bool × Heap))
    → OptionFits h.memlist o
    → Released h.memlist h o r
    → FreeOutcome h.memlist o r
unfolding OptionFits Released
outcome h none r f done = done
outcome h (some bs) r f done = Returns-mono done λ (failed, h') (good, inhabited, chain, same, _).
    (good, record { chain = rw same chain; fits = rw same f; inhabited = inhabited }, same)

first_hit :
    (h : Heap) (b : Block) (bs : List Block)
    → IsHeap h (b ∷ bs)
    → b.free ≡ false
    → FreeOutcome h.memlist (some (absorb (freed b) bs)) (
        ok (
          false,
          record h { word = release_block null h.memlist (entry (after h.memlist b) bs) h.word },
        ))
first_hit h b bs is e = returns (
  refl,
  record {
    chain = release_block-first h.word h.memlist b bs is.chain is.fits e;
    fits = Fits-absorb h.memlist (freed b) bs is.fits;
    inhabited = is_nil-absorb (freed b) bs;
  },
  refl,
)

-- From a heap that holds the blocks `bs`, with more fuel than blocks: if an allocated block's bytes
-- start at `ptr`, `free_memory` returns 0 and leaves a heap with the same `memlist` that holds the
-- blocks of `release`; if there is none, it reads through NULL.
pub free_memory-release :
    (fuel ptr : ℕ) (h : Heap) (bs : List Block)
    → IsHeap h bs
    → length bs < fuel
    → FreeOutcome h.memlist (release ptr h.memlist bs) (free_memory fuel ptr h)
unfolding free_memory release
free_memory-release fuel ptr h [] is l = absurd (false≢true (sym is.inhabited))
free_memory-release zero ptr h (b ∷ bs) is l = absurd (omega arith)
free_memory-release (suc fuel) ptr h (b ∷ []) is l =
    rw (mcb_next-Chain h.word h.memlist b [] is.chain is.fits)
      (elim (Bool-cases (start h.memlist == ptr && not b.free)) [
        | inl hit ↦
            rw (free_hit fuel ptr null h.memlist b [] h is.chain is.fits hit, hit)
              (first_hit h b [] is (busy_of_test b _ hit))
        | inr miss ↦ rw (free_miss fuel ptr null h.memlist b [] h is.chain is.fits miss, miss) refl
      ])
free_memory-release (suc fuel) ptr h (b ∷ d ∷ bs) is l =
    rw (mcb_next-Chain h.word h.memlist b (d ∷ bs) is.chain is.fits)
      (elim (Bool-cases (start h.memlist == ptr && not b.free)) [
        | inl hit ↦
            rw (free_hit fuel ptr null h.memlist b (d ∷ bs) h is.chain is.fits hit, hit)
              (first_hit h b (d ∷ bs) is (busy_of_test b _ hit))
        | inr miss ↦
            rw
              (
                free_miss fuel ptr null h.memlist b (d ∷ bs) h is.chain is.fits miss,
                miss,
                mcb_next-Chain h.word (after h.memlist b) d bs is.chain.1 is.fits.2,
              )
              (outcome h (release_behind ptr h.memlist b (d ∷ bs)) _
                (Fits-release_behind ptr h.memlist b (d ∷ bs) is.fits)
                (free_loop-Released fuel ptr h.memlist b d bs h is.chain is.fits (omega arith)))
      ])
