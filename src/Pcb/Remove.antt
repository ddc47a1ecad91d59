-- ===== src/Pcb/Remove.antt =====
-- `pcb_remove` of kernel/pcb.c against taking an address out of a list.
use mathlib.Core.Path.{subst}
use mpx.Base.{
  ℕ, zero, suc, ◌+◌, ◌<◌, ◌≡◌, ◌≢◌, refl, ◌⊎◌, inl, inr, Bool, true, false, not, ◌||◌, Option, none,
  some, List, [], ◌∷◌, arith, ◌==◌, if◌then◌else◌, Bool-cases, length,
}
use mpx.Base.Int.{ℤ, eqb_ℤ}
use mpx.Base.Run.{ok, ◌>>=◌, Returns, returns, Returns-mono, Returns-bind}
use mpx.Pcb.{
  Pcb, Queues, null, set_next, Head, ready, suspended, head_of, set_head, find_before, remove_from,
  pcb_remove, ready_state, resume_state, suspended_state,
}
use mpx.Pcb.Queue.{
  has, Linked, Distinct, IsQueue, SameButNext, erase, Linked-set_next, has-erase, Distinct-erase,
}
use mpx.Pcb.Insert.{SameHeads, head_of-set_head, pcb-set_head, set_head-SameHeads, head_of-pcb}

find_before-null : (fuel x : ℕ) (f : ℕ → Pcb) → find_before (suc fuel) x null f ≡ ok null
unfolding find_before
find_before-null fuel x f = refl

module _ (fuel x p : ℕ) (f : ℕ → Pcb) (low : 0 < p) where
  find_before-here : (f p).next_pcb ≡ x → find_before (suc fuel) x p f ≡ ok p
  unfolding find_before
  find_before-here e = ground arith

  find_before-go :
      (f p).next_pcb ≢ x → find_before (suc fuel) x p f ≡ find_before fuel x (f p).next_pcb f
  unfolding find_before
  find_before-go e = ground arith

-- what the search from the block `p`, with the blocks `qs` behind it, finds
Found : (ℕ → Pcb) → ℕ → ℕ → List ℕ → ℕ → Type 0
Found f x p qs r =
    (has x qs ≡ false) × (r ≡ null)
    ⊎ (has x qs ≡ true)
      × (0 < r)
      × (has r (p ∷ qs) ≡ true)
      × Linked (set_next f r (f x).next_pcb) p (p ∷ erase x qs)

Found-cons :
    (f : ℕ → Pcb) (x p q : ℕ) (qs : List ℕ)
    → q ≢ x
    → has p (q ∷ qs) ≡ false
    → Linked f p (p ∷ q ∷ qs)
    → (r : ℕ) → Found f x q qs r
    → Found f x p (q ∷ qs) r
unfolding Found erase
Found-cons f x p q qs ne d l r (inl (out, z)) = inl (ground arith, z)
Found-cons f x p q qs ne d l r (inr (in_it, low, among, lk)) =
    let other : (q == x) ≡ false = ground arith in
    inr
      (ground arith, low, ground arith, rw other (refl, l.1, (ground (arith, l.2.0), l.2.1, lk.2)))

unlink_link :
    (f : ℕ → Pcb) (x p q : ℕ) (qs : List ℕ)
    → q ≡ x
    → has p qs ≡ false
    → Linked f p (p ∷ q ∷ qs)
    → Linked (set_next f p (f x).next_pcb) p (p ∷ qs)
unlink_link f x p q qs e d l =
    let v : (f q).next_pcb ≡ (set_next f p (f x).next_pcb p).next_pcb = ground arith in
    (
      refl,
      l.1,
      subst (λ n. Linked (set_next f p (f x).next_pcb) n qs) v
          (Linked-set_next f (f q).next_pcb p (f x).next_pcb qs d l.2.2),
    )

find_before-Found :
    (fuel x p : ℕ) (qs : List ℕ) (f : ℕ → Pcb)
    → 0 < x
    → p ≢ x
    → Distinct (p ∷ qs)
    → Linked f p (p ∷ qs)
    → length qs + 1 < fuel
    → Returns (Found f x p qs) (find_before fuel x p f)
unfolding Found erase
find_before-Found zero x p qs f pos ne d l m = absurd (omega arith)
find_before-Found (suc zero) x p qs f pos ne d l m = absurd (omega arith)
find_before-Found (suc (suc fuel)) x p [] f pos ne d l m =
    rw (find_before-go (suc fuel) x p f l.1 (omega (arith, l.2)), l.2, find_before-null fuel x f)
      (returns (inl (refl, refl)))
find_before-Found (suc (suc fuel)) x p (q ∷ qs) f pos ne d l m = elim (Bool-cases (q == x)) [
  | inl hit ↦ rw (find_before-here (suc fuel) x p f l.1 (ground (arith, l.2.0))) (
      returns (
        inr (
          ground arith,
          l.1,
          ground arith,
          rw hit (unlink_link f x p q qs (ground arith) (ground arith) l),
        )))
  | inr miss ↦
      rw (find_before-go (suc fuel) x p f l.1 (ground (arith, l.2.0)), l.2.0)
        (Returns-mono
          (find_before-Found (suc fuel) x q qs f pos (ground arith) d.1 (refl, l.2.1, l.2.2)
            (omega arith))
          (Found-cons f x p q qs (ground arith) d.0 l))
]

-- What `pcb_remove` leaves: `failed` says whether the block was not there.
pub record Removed (hd : Head) (x : ℕ) (qs : List ℕ) (k : Queues) (r : Bool × Queues) : Type 0 where
  pub code : r.0 ≡ not (has x qs)
  pub queue : IsQueue hd r.1 (erase x qs)
  pub outside : (q : ℕ) → has q qs ≡ false → r.1.pcb q ≡ k.pcb q
  pub fields : SameButNext k.pcb r.1.pcb
  pub heads : SameHeads hd k r.1

erase_absent : (x : ℕ) (qs : List ℕ) → has x qs ≡ false → erase x qs ≡ qs
unfolding erase
erase_absent x [] h = refl
erase_absent x (q ∷ qs) h = ground (arith, erase_absent x qs)

module _ (fuel : ℕ) (hd : Head) (x : ℕ) (k : Queues) where
  remove_from-head :
      head_of hd k ≡ x → remove_from fuel hd x k ≡ ok (false, set_head hd (k.pcb x).next_pcb k)
  unfolding remove_from
  remove_from-head e = ground arith

  remove_from-search :
      head_of hd k ≢ x
      → remove_from fuel hd x k ≡ (
          find_before fuel x (head_of hd k) k.pcb >>= λ current.
          if current == null
          then ok (true, k)
          else ok (false, record k { pcb = set_next k.pcb current (k.pcb x).next_pcb }))
  unfolding remove_from
  remove_from-search e = ground arith

  -- nothing found
  unchanged-Removed :
      (qs : List ℕ) → IsQueue hd k qs → has x qs ≡ false → Removed hd x qs k (true, k)
  unchanged-Removed qs is out = record {
    code = rw out;
    queue = rw (erase_absent x qs out) is;
    outside = λ q h. refl;
    fields = λ q. refl;
    heads = λ hd' ne. refl;
  }

  head-Removed :
      (q : ℕ) (qs : List ℕ)
      → q ≡ x
      → IsQueue hd k (q ∷ qs)
      → Removed hd x (q ∷ qs) k (false, set_head hd (k.pcb x).next_pcb k)
  unfolding erase
  head-Removed q qs e is =
      let hit : (q == x) ≡ true = ground arith in
      record {
        code = ground arith;
        queue = rw hit (record {
          linked =
              rw (head_of-set_head hd (k.pcb x).next_pcb k, pcb-set_head hd (k.pcb x).next_pcb k)
                (rw (← e) is.linked.2);
          distinct = is.distinct.1;
        });
        outside = λ q' h. rw (pcb-set_head hd (k.pcb x).next_pcb k);
        fields = λ q'. rw (pcb-set_head hd (k.pcb x).next_pcb k);
        heads = set_head-SameHeads hd (k.pcb x).next_pcb k.pcb k;
      }

  search-Removed :
      (q : ℕ) (qs : List ℕ)
      → q ≢ x
      → IsQueue hd k (q ∷ qs)
      → (r : ℕ) → Found k.pcb x q qs r
      → Returns (Removed hd x (q ∷ qs) k) (
          if r == null
          then ok (true, k)
          else ok (false, record k { pcb = set_next k.pcb r (k.pcb x).next_pcb }))
  unfolding Found erase
  search-Removed q qs ne is r (inl (out, z)) =
      rw z (returns (unchanged-Removed (q ∷ qs) is (ground arith)))
  search-Removed q qs ne is r (inr (in_it, low, among, lk)) =
      let found : (r == null) ≡ false = ground arith in
      let other : (q == x) ≡ false = ground arith in
      rw found (
        returns (record {
          code = ground arith;
          queue = rw other (record {
            linked = rw (head_of-pcb hd _ k, is.linked.0) lk;
            distinct =
                (ground (arith, has-erase x q qs is.distinct.1), Distinct-erase x qs is.distinct.1);
          });
          outside = λ q' h. ground arith;
          fields = λ q'. ground arith;
          heads = λ hd' _. head_of-pcb hd' _ k;
        }))

pub remove_from-Removed :
    (fuel : ℕ) (hd : Head) (x : ℕ) (k : Queues) (qs : List ℕ)
    → 0 < x
    → IsQueue hd k qs
    → length qs < fuel
    → Returns (Removed hd x qs k) (remove_from fuel hd x k)
remove_from-Removed zero hd x k qs pos is m = absurd (omega arith)
remove_from-Removed (suc fuel) hd x k [] pos is m =
    rw
      (
        remove_from-search (suc fuel) hd x k (omega (arith, is.linked)),
        is.linked,
        find_before-null fuel x k.pcb,
      )
      (returns (unchanged-Removed (suc fuel) hd x k [] is refl))
remove_from-Removed (suc fuel) hd x k (q ∷ qs) pos is m = elim (Bool-cases (q == x)) [
  | inl hit ↦
      rw (remove_from-head (suc fuel) hd x k (ground (arith, is.linked.0)))
        (returns (head-Removed (suc fuel) hd x k q qs (ground arith) is))
  | inr miss ↦
      rw (remove_from-search (suc fuel) hd x k (ground (arith, is.linked.0)), is.linked.0)
        (Returns-bind
          (find_before-Found (suc fuel) x q qs k.pcb pos (ground arith) is.distinct
            (refl, is.linked.1, is.linked.2) (omega arith))
          (search-Removed (suc fuel) hd x k q qs (ground arith) is))
]

-- the queue that `pcb_remove` searches for a block in that state
unfoldable pub remove_head : ℤ → Option Head
remove_head s =
    if eqb_ℤ s ready_state || eqb_ℤ s resume_state
    then some ready
    else if eqb_ℤ s suspended_state
    then some suspended
    else none

pcb_remove-from :
    (fuel x : ℕ) (k : Queues) (hd : Head)
    → 0 < x
    → remove_head (k.pcb x).state ≡ some hd
    → pcb_remove fuel x k ≡ remove_from fuel hd x k
unfolding pcb_remove remove_head
pcb_remove-from fuel x k hd pos e = ground arith

-- `pcb_remove` of a block that is not NULL and whose state is READY, RESUME or SUSPENDED (-1) returns, given more fuel
-- than the queue has blocks. The queue of that state is then without the block and otherwise in its
-- order; the result is PCB_ERROR exactly if the block was not in the queue. Only links change, only
-- those of the queue's blocks, and the other queues start where they did.
pub pcb_remove_lem :
    (fuel x : ℕ) (k : Queues) (hd : Head) (qs : List ℕ)
    → 0 < x
    → remove_head (k.pcb x).state ≡ some hd
    → IsQueue hd k qs
    → length qs < fuel
    → Returns (Removed hd x qs k) (pcb_remove fuel x k)
pcb_remove_lem fuel x k hd qs pos e is m =
    rw (pcb_remove-from fuel x k hd pos e) (remove_from-Removed fuel hd x k qs pos is m)

-- A block in any other state, BLOCKED included, is never removed: the result is PCB_ERROR and
-- nothing changes.
pub pcb_remove-other :
    (fuel x : ℕ) (k : Queues)
    → remove_head (k.pcb x).state ≡ none
    → pcb_remove fuel x k ≡ ok (true, k)
unfolding pcb_remove remove_head
pcb_remove-other fuel x k e = ground arith
