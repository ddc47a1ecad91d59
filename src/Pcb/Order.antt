-- ===== src/Pcb/Order.antt =====
-- The order of a queue: `pcb_insert` keeps it sorted, is fair among equals, and is undone by
-- `pcb_remove`.
use mathlib.Core.Path.{fun_ext}
use mpx.Base.{
  ℕ, ◌+◌, ◌<◌, ◌≤◌, ◌≡◌, ◌≢◌, refl, ◌∙◌, ap, true, false, some, List, [], ◌∷◌, ◌++◌, arith,
  if_cases, ==_refl, length,
}
use mpx.Base.Int.{ℤ, ltb_ℤ, ◌≤ℤ◌, ◌<ℤ◌}
use mpx.Base.Run.{◌>>=◌, Returns, Returns-mono, Returns-bind}
use mpx.Pcb.{Pcb, Queues, Head, blocked, insert_head, pcb_insert, pcb_remove}
use mpx.Pcb.Queue.{has, IsQueue, SameButNext, place, erase, rank, has-place, length-place}
use mpx.Pcb.Insert.{pcb_insert_lem}
use mpx.Pcb.Remove.{remove_head, pcb_remove_lem}

-- `q` goes before none of a smaller number
abbrev pub AtMost : (ℕ → ℤ) → ℤ → List ℕ → Type 0
AtMost r z [] = Unit {0}
AtMost r z (q ∷ qs) = (z ≤ℤ r q) × AtMost r z qs

abbrev pub Sorted : (ℕ → ℤ) → List ℕ → Type 0
Sorted r [] = Unit {0}
Sorted r (q ∷ qs) = AtMost r (r q) qs × Sorted r qs

AtMost-place :
    (r : ℕ → ℤ) (z : ℤ) (x : ℕ) (qs : List ℕ) → z ≤ℤ r x → AtMost r z qs → AtMost r z (place r x qs)
unfolding place
AtMost-place r z x [] h a = (h, tt)
AtMost-place r z x (q ∷ qs) h a =
    if_cases (AtMost r z) (ltb_ℤ (r x) (r q)) (λ _. (h, a))
      (λ _. (a.0, AtMost-place r z x qs h a.1))

AtMost-le : (r : ℕ → ℤ) (y z : ℤ) (qs : List ℕ) → y ≤ℤ z → AtMost r z qs → AtMost r y qs
AtMost-le r y z [] h a = tt
AtMost-le r y z (q ∷ qs) h a = (omega arith, AtMost-le r y z qs h a.1)

pub Sorted-place : (r : ℕ → ℤ) (x : ℕ) (qs : List ℕ) → Sorted r qs → Sorted r (place r x qs)
unfolding place
Sorted-place r x [] s = (tt, tt)
Sorted-place r x (q ∷ qs) s =
    if_cases (Sorted r) (ltb_ℤ (r x) (r q))
      (λ less. ((ground arith, AtMost-le r (r x) (r q) qs (ground arith) s.0), s))
      (λ after. (AtMost-place r (r q) x qs (ground arith) s.0, Sorted-place r x qs s.1))

-- In a sorted queue, `place` puts the block behind all of the same number or a smaller one.
pub place-split :
    (r : ℕ → ℤ) (x : ℕ) (before after : List ℕ)
    → Sorted r (before ++ after)
    → ((q : ℕ) → has q before ≡ true → r q ≤ℤ r x)
    → ((q : ℕ) → has q after ≡ true → r x <ℤ r q)
    → place r x (before ++ after) ≡ before ++ (x ∷ after)
unfolding place
place-split r x [] [] s low high = refl
place-split r x [] (q ∷ after) s low high = ground (arith, high q (ground arith))
place-split r x (b ∷ before) after s low high = ground (
  arith,
  low b (ground arith),
  place-split r x before after s.1 (λ q h. low q (ground arith)) high,
)

pub erase-place : (r : ℕ → ℤ) (x : ℕ) (qs : List ℕ) → has x qs ≡ false → erase x (place r x qs) ≡ qs
unfolding place erase
erase-place r x [] h = ground arith
erase-place r x (q ∷ qs) h = ground (arith, erase-place r x qs (ground arith))

pub same_rank : (f g : ℕ → Pcb) → SameButNext f g → rank g ≡ rank f
same_rank f g same = fun_ext λ q. ap (λ (b : Pcb). b.priority) (same q)

-- A block that is not NULL and not in its state's queue is inserted into that queue, which is
-- `before`, of numbers up to the block's, and then `after`, of greater ones, in sorted order: given
-- fuel for its length, `pcb_insert` returns, the queue has the block between the two, and is sorted.
pub pcb_insert-Sorted :
    (fuel x : ℕ) (hd : Head) (k : Queues) (before after : List ℕ)
    → 0 < x
    → insert_head (k.pcb x).state ≡ some hd
    → IsQueue hd k (before ++ after)
    → has x (before ++ after) ≡ false
    → length (before ++ after) ≤ fuel
    → Sorted (rank k.pcb) (before ++ after)
    → ((q : ℕ) → has q before ≡ true → rank k.pcb q ≤ℤ rank k.pcb x)
    → ((q : ℕ) → has q after ≡ true → rank k.pcb x <ℤ rank k.pcb q)
    → Returns
        (λ k'. IsQueue hd k' (before ++ (x ∷ after)) × Sorted (rank k'.pcb) (before ++ (x ∷ after)))
        (pcb_insert fuel x k)
pcb_insert-Sorted fuel x hd k before after pos st is out m sorted low high =
    Returns-mono (pcb_insert_lem fuel x hd k (before ++ after) pos st is out m) λ k' done.
      let e = place-split (rank k.pcb) x before after sorted low high in
      (
        rw e at done.queue,
        rw (same_rank k.pcb k'.pcb done.spared.fields)
            (rw e at (Sorted-place (rank k.pcb) x (before ++ after) sorted)),
      )

remove_head_of_insert :
    (s : ℤ) (hd : Head) → hd ≢ blocked → insert_head s ≡ some hd → remove_head s ≡ some hd
unfolding insert_head remove_head
remove_head_of_insert s hd ne e = ground arith

-- Inserting a block that is not NULL, whose state belongs to the ready or the suspended queue and
-- that is not in that queue, and removing it again, with fuel for the longer queue, returns,
-- reports success and restores the queue.
pub pcb_remove-pcb_insert :
    (fuel x : ℕ) (hd : Head) (k : Queues) (qs : List ℕ)
    → 0 < x
    → insert_head (k.pcb x).state ≡ some hd
    → hd ≢ blocked
    → IsQueue hd k qs
    → has x qs ≡ false
    → length qs + 1 < fuel
    → Returns
        (λ (failed, k'). (failed ≡ false) × IsQueue hd k' qs)
        (pcb_insert fuel x k >>= λ k₁. pcb_remove fuel x k₁)
pcb_remove-pcb_insert fuel x hd k qs pos st ne is out m =
    Returns-bind (pcb_insert_lem fuel x hd k qs pos st is out (omega arith)) λ k₁ placed.
      let r = rank k.pcb in
      let same_state : (k₁.pcb x).state ≡ (k.pcb x).state =
        ap (λ (b : Pcb). b.state) (placed.spared.fields x) in
      Returns-mono
        (pcb_remove_lem fuel x k₁ hd (place r x qs) pos
          (rw same_state (remove_head_of_insert (k.pcb x).state hd ne st)) placed.queue
          (omega (arith, length-place r x qs)))
        λ (failed, k') done. (
          done.code ∙ rw (has-place r x x qs, ==_refl x),
          rw (erase-place r x qs out) at done.queue,
        )
