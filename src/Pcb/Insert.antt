-- ===== src/Pcb/Insert.antt =====
-- `pcb_insert` of kernel/pcb.c against insertion by priority into a list.
use mathlib.Core.Path.{subst}
use mpx.Base.{
  ℕ, zero, suc, ◌<◌, ◌≤◌, ◌≡◌, ◌≢◌, refl, ◌∙◌, ap, sym, inl, inr, true, false, not, ◌&&◌, ◌||◌,
  some, List, [], ◌∷◌, arith, ◌==◌, Bool-cases, length,
}
use mpx.Base.Int.{ℤ, ltb_ℤ}
use mpx.Base.Run.{ok, ◌>>=◌, Returns, returns, Returns-mono, Returns-bind}
use mpx.Pcb.{
  Pcb, Queues, null, set_next, Head, ready, blocked, suspended, head_of, set_head, insert_head,
  insert_behind, pcb_insert,
}
use mpx.Pcb.Queue.{
  has, Linked, Distinct, IsQueue, SameButNext, place, rank, Linked-set_next, Distinct-place,
}

-- What an insertion of `x` among the blocks `qs` leaves alone: every other block but for links of
-- `x` and `qs`, and every field but the link.
pub record Spared (x : ℕ) (qs : List ℕ) (f g : ℕ → Pcb) : Type 0 where
  pub outside : (q : ℕ) → (q == x || has q qs) ≡ false → g q ≡ f q
  pub fields : SameButNext f g

SameButNext-set_next : (f : ℕ → Pcb) (p v : ℕ) → SameButNext f (set_next f p v)
SameButNext-set_next f p v q = ground arith

SameButNext-trans : (f g h : ℕ → Pcb) → SameButNext f g → SameButNext g h → SameButNext f h
SameButNext-trans f g h a b q = ground (arith, a q, b q)

-- The two writes behind `p`.
link-Linked :
    (f : ℕ → Pcb) (x p : ℕ) (qs : List ℕ)
    → 0 < x
    → has x (p ∷ qs) ≡ false
    → has p qs ≡ false
    → Linked f p (p ∷ qs)
    → Linked (set_next (set_next f x (f p).next_pcb) p x) p (p ∷ x ∷ qs)
link-Linked f x p qs pos out d l = (
  refl,
  l.1,
  (
    ground arith,
    pos,
    subst (λ v. Linked (set_next (set_next f x (f p).next_pcb) p x) v qs) (ground arith) rest,
  ),
)
  where
    rest : Linked (set_next (set_next f x (f p).next_pcb) p x) (f p).next_pcb qs
    rest =
        Linked-set_next (set_next f x (f p).next_pcb) (f p).next_pcb p x qs d
          (Linked-set_next f (f p).next_pcb x (f p).next_pcb qs (ground arith) l.2)

link-Spared :
    (f : ℕ → Pcb) (x p v : ℕ) (qs : List ℕ) → Spared x (p ∷ qs) f (set_next (set_next f x v) p x)
link-Spared f x p v qs = record { outside = λ q h. ground arith; fields = λ q. ground arith }

-- The end of the walk, at an end of the queue or before a greater number.
insert_behind-stop :
    (fuel x p : ℕ) (f : ℕ → Pcb)
    → (not ((f p).next_pcb == null) && not (ltb_ℤ (f x).priority (f (f p).next_pcb).priority))
      ≡ false
    → insert_behind (suc fuel) x p f ≡ ok (set_next (set_next f x (f p).next_pcb) p x)
unfolding insert_behind
insert_behind-stop fuel x p f e = rw e

insert_behind-go :
    (fuel x p : ℕ) (f : ℕ → Pcb)
    → (not ((f p).next_pcb == null) && not (ltb_ℤ (f x).priority (f (f p).next_pcb).priority))
      ≡ true
    → insert_behind (suc fuel) x p f ≡ insert_behind fuel x (f p).next_pcb f
unfolding insert_behind
insert_behind-go fuel x p f e = rw e

Placed : (ℕ → Pcb) → ℕ → ℕ → List ℕ → (ℕ → Pcb) → Type 0
Placed f x p qs g = Linked g p (p ∷ place (rank f) x qs) × Spared x (p ∷ qs) f g

Placed-cons :
    (f g : ℕ → Pcb) (x p q : ℕ) (qs : List ℕ)
    → Linked f p (p ∷ q ∷ qs)
    → has p (q ∷ qs) ≡ false
    → has x (p ∷ q ∷ qs) ≡ false
    → ltb_ℤ (f x).priority (f q).priority ≡ false
    → Placed f x q qs g
    → Placed f x p (q ∷ qs) g
unfolding Placed place
Placed-cons f g x p q qs l d out after (lk, sp) =
    let kept : g p ≡ f p = sp.outside p (ground arith) in
    (
      rw after (refl, l.1, ((ap (λ (r : Pcb). r.next_pcb) kept ∙ l.2.0), l.2.1, lk.2)),
      record { outside = λ a h. sp.outside a (ground arith); fields = sp.fields },
    )

insert_behind-Placed :
    (fuel : ℕ) (f : ℕ → Pcb) (x p : ℕ) (qs : List ℕ)
    → 0 < x
    → has x (p ∷ qs) ≡ false
    → Distinct (p ∷ qs)
    → Linked f p (p ∷ qs)
    → length qs < fuel
    → Returns (Placed f x p qs) (insert_behind fuel x p f)
unfolding Placed place
insert_behind-Placed zero f x p qs pos out d l m = absurd (omega arith)
insert_behind-Placed (suc fuel) f x p [] pos out d l m =
    rw (insert_behind-stop fuel x p f (ground arith))
      (returns (link-Linked f x p [] pos out d.0 l, link-Spared f x p _ []))
insert_behind-Placed (suc fuel) f x p (q ∷ qs) pos out d l m =
    elim (Bool-cases (ltb_ℤ (f x).priority (f q).priority)) [
      | inl less ↦ rw (insert_behind-stop fuel x p f (ground arith)) (
          returns
            (rw less (link-Linked f x p (q ∷ qs) pos out d.0 l), link-Spared f x p _ (q ∷ qs)))
      | inr after ↦ rw (insert_behind-go fuel x p f (ground arith)) (
          subst (λ n. Returns (Placed f x p (q ∷ qs)) (insert_behind fuel x n f)) (sym l.2.0)
            (Returns-mono
              (insert_behind-Placed fuel f x q qs pos (ground arith) d.1 (refl, l.2.1, l.2.2)
                (omega arith))
              (λ g. Placed-cons f g x p q qs l d.0 out after)))
    ]

pub head_of-set_head : (hd : Head) (p : ℕ) (k : Queues) → head_of hd (set_head hd p k) ≡ p
head_of-set_head ready p k = refl
head_of-set_head blocked p k = refl
head_of-set_head suspended p k = refl

pub pcb-set_head : (hd : Head) (p : ℕ) (k : Queues) → (set_head hd p k).pcb ≡ k.pcb
pcb-set_head ready p k = refl
pcb-set_head blocked p k = refl
pcb-set_head suspended p k = refl

-- The other two queues start where they did.
abbrev pub SameHeads : Head → Queues → Queues → Type 0
SameHeads hd k k' = (hd' : Head) → hd' ≢ hd → head_of hd' k' ≡ head_of hd' k

pub set_head-SameHeads :
    (hd : Head) (p : ℕ) (f : ℕ → Pcb) (k : Queues)
    → SameHeads hd k (set_head hd p (record k { pcb = f }))
set_head-SameHeads ready p f k ready ne = absurd (ne refl)
set_head-SameHeads ready p f k blocked ne = refl
set_head-SameHeads ready p f k suspended ne = refl
set_head-SameHeads blocked p f k ready ne = refl
set_head-SameHeads blocked p f k blocked ne = absurd (ne refl)
set_head-SameHeads blocked p f k suspended ne = refl
set_head-SameHeads suspended p f k ready ne = refl
set_head-SameHeads suspended p f k blocked ne = refl
set_head-SameHeads suspended p f k suspended ne = absurd (ne refl)

pub head_of-pcb :
    (hd : Head) (f : ℕ → Pcb) (k : Queues) → head_of hd (record k { pcb = f }) ≡ head_of hd k
head_of-pcb ready f k = refl
head_of-pcb blocked f k = refl
head_of-pcb suspended f k = refl

-- what `pcb_insert` leaves of the queues
pub record Inserted (hd : Head) (x : ℕ) (qs : List ℕ) (k k' : Queues) : Type 0 where
  pub queue : IsQueue hd k' (place (rank k.pcb) x qs)
  pub spared : Spared x qs k.pcb k'.pcb
  pub heads : SameHeads hd k k'

front_link :
    (f : ℕ → Pcb) (x p : ℕ) (qs : List ℕ)
    → 0 < x
    → has x qs ≡ false
    → Linked f p qs
    → Linked (set_next f x p) x (x ∷ qs)
front_link f x p qs pos out l =
    let e : p ≡ (set_next f x p x).next_pcb = ground arith in
    (refl, pos, subst (λ v. Linked (set_next f x p) v qs) e (Linked-set_next f p x p qs out l))

-- The block goes in front.
module _ (hd : Head) (x : ℕ) (k : Queues) where
  front : Queues
  front = set_head hd x (record k { pcb = set_next k.pcb x (head_of hd k) })

  front-Inserted :
      (qs : List ℕ)
      → 0 < x
      → has x qs ≡ false
      → IsQueue hd k qs
      → place (rank k.pcb) x qs ≡ x ∷ qs
      → Inserted hd x qs k front
  unfolding front
  front-Inserted qs pos out is e =
      let k₁ : Queues = record k { pcb = set_next k.pcb x (head_of hd k) } in
      record {
        queue = rw e (record {
          linked = rw (head_of-set_head hd x k₁) (
              subst (λ f. Linked f x (x ∷ qs)) (sym (pcb-set_head hd x k₁))
                (front_link k.pcb x (head_of hd k) qs pos out is.linked));
          distinct = (out, is.distinct);
        });
        spared =
            rw (pcb-set_head hd x k₁)
              (record { outside = λ q h. ground arith; fields = λ q. ground arith });
        heads = set_head-SameHeads hd x _ k;
      }

place-nil : (r : ℕ → ℤ) (x : ℕ) → place r x [] ≡ x ∷ []
unfolding place
place-nil r x = refl

place-less :
    (r : ℕ → ℤ) (x q : ℕ) (qs : List ℕ) → ltb_ℤ (r x) (r q) ≡ true → place r x (q ∷ qs) ≡ x ∷ q ∷ qs
unfolding place
place-less r x q qs e = rw e

place-after :
    (r : ℕ → ℤ) (x q : ℕ) (qs : List ℕ)
    → ltb_ℤ (r x) (r q) ≡ false
    → place r x (q ∷ qs) ≡ q ∷ place r x qs
unfolding place
place-after r x q qs e = rw e

pcb_insert-front :
    (fuel x : ℕ) (hd : Head) (k : Queues)
    → 0 < x
    → insert_head (k.pcb x).state ≡ some hd
    → (head_of hd k == null || ltb_ℤ (k.pcb x).priority (k.pcb (head_of hd k)).priority) ≡ true
    → pcb_insert fuel x k ≡ ok (front hd x k)
unfolding pcb_insert front
pcb_insert-front fuel x hd k pos st e =
    let low : (x == null) ≡ false = ground arith in rw (low, st, e)

pcb_insert-walk :
    (fuel x : ℕ) (hd : Head) (k : Queues)
    → 0 < x
    → insert_head (k.pcb x).state ≡ some hd
    → (head_of hd k == null || ltb_ℤ (k.pcb x).priority (k.pcb (head_of hd k)).priority) ≡ false
    → pcb_insert fuel x k
      ≡ (insert_behind fuel x (head_of hd k) k.pcb >>= λ f. ok (record k { pcb = f }))
unfolding pcb_insert
pcb_insert-walk fuel x hd k pos st e =
    let low : (x == null) ≡ false = ground arith in rw (low, st, e)

walk-Inserted :
    (f : ℕ → Pcb) (hd : Head) (x q : ℕ) (qs : List ℕ) (k : Queues)
    → 0 < q
    → has x (q ∷ qs) ≡ false
    → Distinct (q ∷ qs)
    → head_of hd k ≡ q
    → place (rank k.pcb) x (q ∷ qs) ≡ q ∷ place (rank k.pcb) x qs
    → Placed k.pcb x q qs f
    → Inserted hd x (q ∷ qs) k (record k { pcb = f })
unfolding Placed
walk-Inserted f hd x q qs k low out d h e (lk, sp) = record {
  queue = record {
    linked = rw (head_of-pcb hd f k, h, e) lk;
    distinct = Distinct-place (rank k.pcb) x (q ∷ qs) out d;
  };
  spared = sp;
  heads = λ hd' _. head_of-pcb hd' f k;
}

-- `pcb_insert` of a block that is not NULL and not in its state's queue returns, given fuel for the
-- queue's length. The queue then has the block before the first one of a greater priority number
-- and behind all others; the other queues start where they did, only links change, and only those
-- of the block and of the queue.
pub pcb_insert_lem :
    (fuel x : ℕ) (hd : Head) (k : Queues) (qs : List ℕ)
    → 0 < x
    → insert_head (k.pcb x).state ≡ some hd
    → IsQueue hd k qs
    → has x qs ≡ false
    → length qs ≤ fuel
    → Returns (Inserted hd x qs k) (pcb_insert fuel x k)
pcb_insert_lem fuel x hd k [] pos st is out l =
    rw (pcb_insert-front fuel x hd k pos st (ground arith))
      (returns (front-Inserted hd x k [] pos out is (place-nil (rank k.pcb) x)))
pcb_insert_lem fuel x hd k (q ∷ qs) pos st is out l =
    elim (Bool-cases (ltb_ℤ (k.pcb x).priority (k.pcb q).priority)) [
      | inl less ↦ rw (pcb_insert-front fuel x hd k pos st (ground arith)) (
          returns (front-Inserted hd x k (q ∷ qs) pos out is (place-less (rank k.pcb) x q qs less)))
      | inr after ↦
          rw (pcb_insert-walk fuel x hd k pos st (ground arith), is.linked.0)
            (Returns-bind
              (insert_behind-Placed fuel k.pcb x q qs pos out is.distinct
                (refl, is.linked.1, is.linked.2) (omega arith))
              λ f placed. returns (
                walk-Inserted f hd x q qs k is.linked.1 out is.distinct is.linked.0
                  (place-after (rank k.pcb) x q qs after) placed))
    ]
