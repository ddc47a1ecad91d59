-- ===== src/Heap/Free.antt =====
-- `free_memory` against freeing and joining on the list of blocks.
use mathlib.Core.Path.{subst}
use mathlib.Core.Option
use mathlib.Core.Bool.{false≢true}
use mpx.Base.{
  ℕ, zero, suc, ◌+◌, ◌%◌, ◌≤◌, ◌<◌, ◌≡◌, refl, ◌∙◌, inl, inr, Bool, true, false, not, ◌&&◌, Option,
  some, none, List, [], ◌∷◌, arith, ◌==◌, if◌then◌else◌, Bool-cases, if_cases, if_both, ==_refl,
  length, sym, ap,
}
use mpx.Base.Run.{Run, ok, fault, ◌>>=◌, Returns, returns, Returns-mono}
use mpx.Heap.{
  Heap, null, header_bytes, size_mod, start, mcb_next, merge, join_next, join_prev, release_block,
  free_loop, write, mcb_setfree, mcb_copyend, add_size,
}
use mpx.Heap.Blocks.{
  Block, is_nil, header, after, Chain, Fits, entry, mcb_size-header, mcb_isfree-header,
  mcb_isend-header, Fits-bound, mcb_next-Chain, Chain-frame,
}

-- two blocks in a row as one
abbrev pub joined : Block → Block → Block
joined p b = record { size = p.size + header_bytes + b.size; free = p.free }

abbrev pub freed : Block → Block
freed b = record { size = b.size; free = true }

-- join the block behind `b` to it, if that is free
unfoldable pub absorb : Block → List Block → List Block
absorb b [] = b ∷ []
absorb b (d ∷ bs) = if d.free then joined b d ∷ bs else b ∷ d ∷ bs

-- join the first block of a list to the free block `p` before it
unfoldable pub join_before : Block → List Block → List Block
join_before p [] = p ∷ []
join_before p (b ∷ bs) = if p.free then joined p b ∷ bs else p ∷ b ∷ bs

-- Free the allocated block whose bytes start at `ptr`; `none` if there is none. The block `p` at
-- `q` stands before the list.
unfoldable pub release_behind : ℕ → ℕ → Block → List Block → Option (List Block)
release_behind ptr q p [] = none
release_behind ptr q p (b ∷ bs) =
    if start (after q p) == ptr && not b.free
    then some (join_before p (absorb (freed b) bs))
    else Option.map (λ rest. p ∷ rest) (release_behind ptr (after q p) b bs)

unfoldable pub release : ℕ → ℕ → List Block → Option (List Block)
unfolding release_behind absorb join_before
release ptr a [] = none
release ptr a (b ∷ bs) =
    if start a == ptr && not b.free then some (absorb (freed b) bs) else release_behind ptr a b bs

joined_size :
    (p b : Block)
    → p.size + b.size + 8 ≤ size_mod
    → add_size (header p false) (add_size b.size header_bytes) ≡ header (joined p b) false
joined_size p b h = ground arith

copyend_header :
    (j b : Block) (last : Bool)
    → j.size % 4 ≡ 0
    → b.size % 4 ≡ 0
    → mcb_copyend (header j false) (header b last) ≡ header j last
copyend_header j b last e e' =
    ground (arith, mcb_isend-header b last e', mcb_isend-header j false e)

merge_elsewhere : (word : ℕ → ℕ) (x y z : ℕ) → x < z → merge x y word z ≡ word z
unfolding merge
merge_elsewhere word x y z h = ground arith

nonnull : (a : ℕ) (b : Block) → (after a b == null) ≡ false
nonnull a b = ground arith

write_below : (word : ℕ → ℕ) (a x v : ℕ) → x < a → write word a v x ≡ word x
write_below word a x v h = ground arith

module _ (word : ℕ → ℕ) (q : ℕ) (p : Block) where
  setfree-Chain :
      (bs : List Block)
      → Chain word q (p ∷ bs)
      → Fits q (p ∷ bs)
      → p.free ≡ false
      → Chain (write word q (mcb_setfree (word q))) q (freed p ∷ bs)
  setfree-Chain bs c f e = (
    ground (arith, mcb_isfree-header p (is_nil bs) f.1),
    Chain-frame word _ (after q p) bs (λ x h. ground arith) c.1,
  )

  merge-header :
      (b : Block) (bs : List Block)
      → Chain word q (p ∷ b ∷ bs)
      → Fits q (p ∷ b ∷ bs)
      → merge q (after q p) word q ≡ header (joined p b) (is_nil bs)
  unfolding merge
  merge-header b bs c f =
      rw
        (
          ==_refl q,
          c.0,
          c.1.0,
          mcb_size-header b (is_nil bs) f.2.1,
          joined_size p b (omega (arith, Fits-bound (after (after q p) b) bs f.2.2)),
        )
        (copyend_header (joined p b) b (is_nil bs) (omega arith) f.2.1)

  merge-Chain :
      (b : Block) (bs : List Block)
      → Chain word q (p ∷ b ∷ bs)
      → Fits q (p ∷ b ∷ bs)
      → Chain (merge q (after q p) word) q (joined p b ∷ bs)
  merge-Chain b bs c f = (
    merge-header b bs c f,
    subst (λ x. Chain (merge q (after q p) word) x bs) (omega arith)
        (Chain-frame word _ (after (after q p) b) bs
          (λ x h. merge_elsewhere word q (after q p) x (omega arith)) c.1.1),
  )

join_next-Chain :
    (word : ℕ → ℕ) (a : ℕ) (b : Block) (bs : List Block)
    → Chain word a (b ∷ bs)
    → Fits a (b ∷ bs)
    → Chain (join_next a (entry (after a b) bs) word) a (absorb b bs)
unfolding join_next absorb
join_next-Chain word a b [] c f = c
join_next-Chain word a b (d ∷ bs) c f =
    rw (nonnull a b, c.1.0, mcb_isfree-header d (is_nil bs) f.2.1)
      (if_both (λ w l. Chain w a l) d.free (λ _. merge-Chain word a b d bs c f) (λ _. c))

join_prev-Chain :
    (word : ℕ → ℕ) (q : ℕ) (p : Block) (bs : List Block)
    → is_nil bs ≡ false
    → Chain word q (p ∷ bs)
    → Fits q (p ∷ bs)
    → Chain (join_prev q (after q p) word) q (join_before p bs)
unfolding join_prev join_before
join_prev-Chain word q p [] some_block c f = absurd (false≢true (sym some_block))
join_prev-Chain word q p (b ∷ bs) some_block c f =
    let low : (q == null) ≡ false = ground arith in
    rw (low, c.0, mcb_isfree-header p false f.1)
      (if_both (λ w l. Chain w q l) p.free (λ _. merge-Chain word q p b bs c f) (λ _. c))

pub is_nil-absorb : (b : Block) (bs : List Block) → is_nil (absorb b bs) ≡ false
unfolding absorb
is_nil-absorb b [] = refl
is_nil-absorb b (d ∷ bs) =
    if_cases (λ (l : List Block). is_nil l ≡ false) d.free (λ _. refl) (λ _. refl)

Fits-joined :
    (q : ℕ) (p b : Block) (bs : List Block) → Fits q (p ∷ b ∷ bs) → Fits q (joined p b ∷ bs)
Fits-joined q p b bs f = (f.0, omega arith, subst (λ x. Fits x bs) (omega arith) f.2.2)

pub Fits-absorb : (a : ℕ) (b : Block) (bs : List Block) → Fits a (b ∷ bs) → Fits a (absorb b bs)
unfolding absorb
Fits-absorb a b [] f = f
Fits-absorb a b (d ∷ bs) f = if_cases (Fits a) d.free (λ _. Fits-joined a b d bs f) (λ _. f)

pub Fits-join_before :
    (q : ℕ) (p : Block) (bs : List Block) → Fits q (p ∷ bs) → Fits q (join_before p bs)
unfolding join_before
Fits-join_before q p [] f = f
Fits-join_before q p (b ∷ bs) f = if_cases (Fits q) p.free (λ _. Fits-joined q p b bs f) (λ _. f)

pub release_block-first :
    (word : ℕ → ℕ) (a : ℕ) (b : Block) (bs : List Block)
    → Chain word a (b ∷ bs)
    → Fits a (b ∷ bs)
    → b.free ≡ false
    → Chain (release_block null a (entry (after a b) bs) word) a (absorb (freed b) bs)
unfolding release_block join_prev
release_block-first word a b bs c f e =
    join_next-Chain (write word a (mcb_setfree (word a))) a (freed b) bs
      (setfree-Chain word a b bs c f e) f

join_next_below : (word : ℕ → ℕ) (mcb next x : ℕ) → x < mcb → join_next mcb next word x ≡ word x
unfolding join_next merge
join_next_below word mcb next x h = ground arith

release_block-behind :
    (word : ℕ → ℕ) (q : ℕ) (p b : Block) (bs : List Block)
    → Chain word q (p ∷ b ∷ bs)
    → Fits q (p ∷ b ∷ bs)
    → b.free ≡ false
    → Chain
        (release_block q (after q p) (entry (after (after q p) b) bs) word)
        q
        (join_before p (absorb (freed b) bs))
unfolding release_block
release_block-behind word q p b bs c f e =
    let a = after q p in
    let word₁ = write word a (mcb_setfree (word a)) in
    let word₂ = join_next a (entry (after a b) bs) word₁ in
    let head : word₂ q ≡ header p (is_nil (absorb (freed b) bs)) =
      join_next_below word₁ a (entry (after a b) bs) q (omega arith)
      ∙ write_below word a q _ (omega arith)
      ∙ c.0
      ∙ ap (header p) (sym (is_nil-absorb (freed b) bs)) in
    join_prev-Chain word₂ q p (absorb (freed b) bs) (is_nil-absorb (freed b) bs)
      (head, join_next-Chain word₁ a (freed b) bs (setfree-Chain word a b bs c.1 f.2 e) f.2)
      (f.0, f.1, Fits-absorb a (freed b) bs f.2)

-- what `free_memory` does to the blocks from `q`: a fault where there is nothing to free
unfoldable pub Released : ℕ → Heap → Option (List Block) → Run (Bool × Heap) → Type 0
Released q h none r = r ≡ fault
Released q h (some bs) r =
    Returns
      (λ (failed, h').
        (failed ≡ false)
        × (is_nil bs ≡ false)
        × Chain h'.word q bs
        × (h'.memlist ≡ h.memlist)
        × ((x : ℕ) → x < q → h'.word x ≡ h.word x))
      r

-- One round of the loop at the block `b` of address `a`.
module _ (fuel ptr prev a : ℕ) (b : Block) (bs : List Block) (h : Heap)
    (held : Chain h.word a (b ∷ bs)) (f : Fits a (b ∷ bs)) where
  pub free_hit :
      (start a == ptr && not b.free) ≡ true
      → free_loop (suc fuel) ptr prev a (entry (after a b) bs) h
        ≡ ok (false, record h { word = release_block prev a (entry (after a b) bs) h.word })
  unfolding free_loop
  free_hit hit = ground (arith, held.0, mcb_isfree-header b (is_nil bs) f.1)

  -- Behind the last block the loop reads through NULL.
  pub free_miss :
      (start a == ptr && not b.free) ≡ false
      → free_loop (suc fuel) ptr prev a (entry (after a b) bs) h ≡ (
          mcb_next h.word (entry (after a b) bs) >>= λ next.
          free_loop fuel ptr a (entry (after a b) bs) next h)
  unfolding free_loop
  free_miss miss = ground (arith, held.0, mcb_isfree-header b (is_nil bs) f.1)

pub mcb_next-null : (word : ℕ → ℕ) → mcb_next word null ≡ fault
unfolding mcb_next
mcb_next-null word = refl

is_nil-join_before : (p : Block) (bs : List Block) → is_nil (join_before p bs) ≡ false
unfolding join_before
is_nil-join_before p [] = refl
is_nil-join_before p (b ∷ bs) =
    if_cases (λ (l : List Block). is_nil l ≡ false) p.free (λ _. refl) (λ _. refl)

release_block_below :
    (word : ℕ → ℕ) (q a next x : ℕ) → x < q → q < a → release_block q a next word x ≡ word x
unfolding release_block join_prev merge
release_block_below word q a next x h k =
    ground (arith, join_next_below (write word a (mcb_setfree (word a))) a next x)

Released-map :
    (q : ℕ) (p : Block) (h : Heap) (o : Option (List Block)) (r : Run (Bool × Heap))
    → h.word q ≡ header p false
    → Released (after q p) h o r
    → Released q h (Option.map (λ rest. p ∷ rest) o) r
unfolding Released
Released-map q p h none r e done = done
Released-map q p h (some bs) r e done =
    Returns-mono done λ (failed, h') (good, inhabited, chain, same, below). (
      good,
      refl,
      (below q (omega arith) ∙ e ∙ ap (header p) (sym inhabited), chain),
      same,
      λ x lt. below x (omega arith),
    )

pub busy_of_test : (b : Block) (t : Bool) → (t && not b.free) ≡ true → b.free ≡ false
busy_of_test b t h = ground arith

Released-hit :
    (q : ℕ) (p b : Block) (bs : List Block) (h : Heap)
    → Chain h.word q (p ∷ b ∷ bs)
    → Fits q (p ∷ b ∷ bs)
    → b.free ≡ false
    → Released q h (some (join_before p (absorb (freed b) bs))) (
        ok (
          false,
          record h { word = release_block q (after q p) (entry (after (after q p) b) bs) h.word },
        ))
unfolding Released
Released-hit q p b bs h c f e = returns (
  refl,
  is_nil-join_before p (absorb (freed b) bs),
  release_block-behind h.word q p b bs c f e,
  refl,
  λ x lt. release_block_below h.word q (after q p) _ x lt (omega arith),
)

pub free_loop-Released :
    (fuel ptr q : ℕ) (p b : Block) (bs : List Block) (h : Heap)
    → Chain h.word q (p ∷ b ∷ bs)
    → Fits q (p ∷ b ∷ bs)
    → length bs < fuel
    → Released q h
        (release_behind ptr q p (b ∷ bs))
        (free_loop fuel ptr q (after q p) (entry (after (after q p) b) bs) h)
unfolding release_behind Released
free_loop-Released zero ptr q p b bs h c f l = absurd (omega arith)
free_loop-Released (suc fuel) ptr q p b [] h c f l =
    elim (Bool-cases (start (after q p) == ptr && not b.free)) [
      | inl hit ↦
          rw (free_hit fuel ptr q (after q p) b [] h c.1 f.2 hit, hit)
            (Released-hit q p b [] h c f (busy_of_test b _ hit))
      | inr miss ↦
          rw (free_miss fuel ptr q (after q p) b [] h c.1 f.2 miss, miss, mcb_next-null) refl
    ]
free_loop-Released (suc fuel) ptr q p b (d ∷ bs) h c f l =
    elim (Bool-cases (start (after q p) == ptr && not b.free)) [
      | inl hit ↦
          rw (free_hit fuel ptr q (after q p) b (d ∷ bs) h c.1 f.2 hit, hit)
            (Released-hit q p b (d ∷ bs) h c f (busy_of_test b _ hit))
      | inr miss ↦
          rw
            (
              free_miss fuel ptr q (after q p) b (d ∷ bs) h c.1 f.2 miss,
              miss,
              mcb_next-Chain h.word (after (after q p) b) d bs c.1.1 f.2.2,
            )
            (Released-map q p h (release_behind ptr (after q p) b (d ∷ bs)) _ c.0
              (free_loop-Released fuel ptr (after q p) b d bs h c.1 f.2 (omega arith)))
    ]
