-- ===== src/Heap/Twice.antt =====
-- Freeing a pointer a second time: no allocated block starts there any more.
use mathlib.Core.Option
use mathlib.Core.Path.{subst}
use mpx.Base.{
  ℕ, suc, ◌+◌, ◌<◌, ◌≤◌, ◌≡◌, refl, ap, Bool, false, not, ◌&&◌, ◌||◌, Option, none, some, List, [],
  ◌∷◌, arith, ◌==◌, if_cases, length,
}
use mpx.Base.Run.{Run, fault, ◌>>=◌, Returns, returns}
use mpx.Heap.{Heap, start, free_memory}
use mpx.Heap.Blocks.{Block, after, IsHeap}
use mpx.Heap.Free.{freed, joined, absorb, join_before, release_behind, release}
use mpx.Heap.Release.{FreeOutcome, free_memory-release}

-- whether an allocated block's bytes start at `p`
abbrev pub busy_at : ℕ → ℕ → List Block → Bool
busy_at p a [] = false
busy_at p a (b ∷ bs) = (start a == p && not b.free) || busy_at p (after a b) bs

busy_at-below : (p a : ℕ) (bs : List Block) → p < start a → busy_at p a bs ≡ false
busy_at-below p a [] h = refl
busy_at-below p a (b ∷ bs) h = ground (arith, busy_at-below p (after a b) bs (omega arith))

release_behind-none :
    (p q : ℕ) (pb : Block) (bs : List Block)
    → busy_at p (after q pb) bs ≡ false
    → release_behind p q pb bs ≡ none
unfolding release_behind
release_behind-none p q pb [] h = refl
release_behind-none p q pb (b ∷ bs) h =
    let off : (start (after q pb) == p && not b.free) ≡ false = ground arith in
    rw off
      (ap (Option.map (λ rest. pb ∷ rest)) (release_behind-none p (after q pb) b bs (ground arith)))

release-none : (p a : ℕ) (bs : List Block) → busy_at p a bs ≡ false → release p a bs ≡ none
unfolding release
release-none p a [] h = refl
release-none p a (b ∷ bs) h =
    let off : (start a == p && not b.free) ≡ false = ground arith in
    rw off (release_behind-none p a b bs (ground arith))

busy_at-absorb :
    (p a : ℕ) (b : Block) (bs : List Block)
    → start a ≡ p
    → busy_at p a (absorb (freed b) bs) ≡ false
unfolding absorb
busy_at-absorb p a b [] e = ground arith
busy_at-absorb p a b (d ∷ bs) e =
    if_cases (λ l. busy_at p a l ≡ false) d.free
      (λ fr. ground (arith, busy_at-below p (after a (joined (freed b) d)) bs (omega arith)))
      (λ fr. ground (arith, busy_at-below p (after a (freed b)) (d ∷ bs) (omega arith)))

busy_at-join_before :
    (p q : ℕ) (pb : Block) (bs : List Block)
    → (start q == p && not pb.free) ≡ false
    → busy_at p (after q pb) bs ≡ false
    → busy_at p q (join_before pb bs) ≡ false
unfolding join_before
busy_at-join_before p q pb [] e h = ground arith
busy_at-join_before p q pb (b ∷ bs) e h =
    let same : after q (joined pb b) ≡ after (after q pb) b = omega arith in
    if_cases (λ l. busy_at p q l ≡ false) pb.free (λ fr. rw (same, e) (ground arith))
      (λ fr. ground arith)

-- `Option`'s value, if there is one, has no allocated block at `p`.
abbrev NoneAt : ℕ → ℕ → Option (List Block) → Type 0
NoneAt p a none = Unit {0}
NoneAt p a (some bs) = busy_at p a bs ≡ false

NoneAt-map :
    (p q : ℕ) (pb : Block) (o : Option (List Block))
    → (start q == p && not pb.free) ≡ false
    → NoneAt p (after q pb) o
    → NoneAt p q (Option.map (λ rest. pb ∷ rest) o)
NoneAt-map p q pb none e h = tt
NoneAt-map p q pb (some bs) e h = ground arith

release_behind-NoneAt :
    (p q : ℕ) (pb : Block) (bs : List Block)
    → (start q == p && not pb.free) ≡ false
    → NoneAt p q (release_behind p q pb bs)
unfolding release_behind
release_behind-NoneAt p q pb [] e = tt
release_behind-NoneAt p q pb (b ∷ bs) e =
    if_cases (NoneAt p q) (start (after q pb) == p && not b.free)
      (λ hit.
        busy_at-join_before p q pb (absorb (freed b) bs) e
          (busy_at-absorb p (after q pb) b bs (ground arith)))
      (λ miss.
        NoneAt-map p q pb (release_behind p (after q pb) b bs) e
          (release_behind-NoneAt p (after q pb) b bs miss))

release-NoneAt : (p a : ℕ) (bs : List Block) → NoneAt p a (release p a bs)
unfolding release
release-NoneAt p a [] = tt
release-NoneAt p a (b ∷ bs) =
    if_cases (NoneAt p a) (start a == p && not b.free)
      (λ hit. busy_at-absorb p a b bs (ground arith)) (λ miss. release_behind-NoneAt p a b bs miss)

length-absorb : (b : Block) (bs : List Block) → length (absorb b bs) ≤ length bs + 1
unfolding absorb
length-absorb b [] = omega arith
length-absorb b (d ∷ bs) = ground arith

length-join_before : (p : Block) (bs : List Block) → length (join_before p bs) ≤ length bs + 1
unfolding join_before
length-join_before p [] = omega arith
length-join_before p (b ∷ bs) = ground arith

abbrev NoLonger : ℕ → Option (List Block) → Type 0
NoLonger n none = Unit {0}
NoLonger n (some bs) = length bs ≤ n

NoLonger-map :
    (n : ℕ) (p : Block) (o : Option (List Block))
    → NoLonger n o
    → NoLonger (suc n) (Option.map (λ rest. p ∷ rest) o)
NoLonger-map n p none h = tt
NoLonger-map n p (some bs) h = omega arith

length-release_behind :
    (ptr q : ℕ) (p : Block) (bs : List Block)
    → NoLonger (suc (length bs)) (release_behind ptr q p bs)
unfolding release_behind
length-release_behind ptr q p [] = tt
length-release_behind ptr q p (b ∷ bs) =
    if_cases (NoLonger (suc (suc (length bs)))) (start (after q p) == ptr && not b.free)
      (λ hit. omega (arith, length-join_before p (absorb (freed b) bs), length-absorb (freed b) bs))
      (λ miss. NoLonger-map (suc (length bs)) p _ (length-release_behind ptr (after q p) b bs))

length-release : (ptr a : ℕ) (bs : List Block) → NoLonger (length bs) (release ptr a bs)
unfolding release
length-release ptr a [] = tt
length-release ptr a (b ∷ bs) =
    if_cases (NoLonger (suc (length bs))) (start a == ptr && not b.free)
      (λ hit. omega (arith, length-absorb (freed b) bs)) (λ miss. length-release_behind ptr a b bs)

-- a run whose result leads to a fault
fault_after {a b p} :
    {X : Type a} {Y : Type b} {Post : X → Type p} {r : Run X} {k : X → Run Y}
    → Returns Post r
    → ((x : X) → Post x → k x ≡ fault)
    → (r >>= k) ≡ fault
fault_after (returns h) f = f _ h

second_fault :
    (fuel ptr : ℕ) (h : Heap) (bs : List Block)
    → IsHeap h bs
    → length bs < fuel
    → busy_at ptr h.memlist bs ≡ false
    → free_memory fuel ptr h ≡ fault
second_fault fuel ptr h bs is l gone =
    subst (λ o. FreeOutcome h.memlist o (free_memory fuel ptr h))
      (release-none ptr h.memlist bs gone) (free_memory-release fuel ptr h bs is l)

free_both :
    (fuel ptr : ℕ) (h : Heap) (n : ℕ) (o : Option (List Block))
    → n < fuel
    → NoLonger n o
    → NoneAt ptr h.memlist o
    → FreeOutcome h.memlist o (free_memory fuel ptr h)
    → (free_memory fuel ptr h >>= λ (_, h'). free_memory fuel ptr h') ≡ fault
free_both fuel ptr h n none l m gone done =
    ap (λ (r : Run (Bool × Heap)). r >>= λ (_, h'). free_memory fuel ptr h') done
free_both fuel ptr h n (some bs) l m gone done =
    fault_after done
      λ (failed, h') (_, is', same). second_fault fuel ptr h' bs is' (omega arith) (rw same gone)

-- Freeing the same pointer twice reads through NULL, whether or not a block was allocated there:
-- the first call leaves no allocated block at that address. The heap holds blocks, with more fuel
-- than blocks.
pub free_memory_twice :
    (fuel ptr : ℕ) (h : Heap) (bs : List Block)
    → IsHeap h bs
    → length bs < fuel
    → (free_memory fuel ptr h >>= λ (_, h'). free_memory fuel ptr h') ≡ fault
free_memory_twice fuel ptr h bs is l =
    free_both fuel ptr h (length bs) (release ptr h.memlist bs) l (length-release ptr h.memlist bs)
      (release-NoneAt ptr h.memlist bs) (free_memory-release fuel ptr h bs is l)
