-- ===== src/Pcb/Queue.antt =====
-- A queue of kernel/pcb.c as the list of its blocks' addresses.
use mpx.Base.{
  ℕ, ◌+◌, ◌<◌, ◌≡◌, refl, Bool, true, false, not, ◌&&◌, ◌||◌, List, [], ◌∷◌, arith, ◌==◌,
  if◌then◌else◌, if_cases, length,
}
use mpx.Base.Int.{ℤ, ltb_ℤ}
use mpx.Pcb.{Pcb, Queues, null, set_next, Head, head_of}

abbrev pub has : ℕ → List ℕ → Bool
has a [] = false
has a (q ∷ qs) = a == q || has a qs

-- From `p` the `next_pcb` pointers lead through the blocks in order, and then to NULL.
abbrev pub Linked : (ℕ → Pcb) → ℕ → List ℕ → Type 0
Linked f p [] = p ≡ null
Linked f p (q ∷ qs) = (p ≡ q) × (0 < q) × Linked f (f q).next_pcb qs

abbrev pub Distinct : List ℕ → Type 0
Distinct [] = Unit {0}
Distinct (q ∷ qs) = (has q qs ≡ false) × Distinct qs

pub record IsQueue (hd : Head) (k : Queues) (qs : List ℕ) : Type 0 where
  pub linked : Linked k.pcb (head_of hd k) qs
  pub distinct : Distinct qs

-- No field of a block but `next_pcb` differs.
abbrev pub SameButNext : (ℕ → Pcb) → (ℕ → Pcb) → Type 0
SameButNext f g = (q : ℕ) → g q ≡ record (f q) { next_pcb = (g q).next_pcb }

-- the place of `x` in a queue: behind all blocks up to the first of a greater number
unfoldable pub place : (ℕ → ℤ) → ℕ → List ℕ → List ℕ
place rank x [] = x ∷ []
place rank x (q ∷ qs) = if ltb_ℤ (rank x) (rank q) then x ∷ q ∷ qs else q ∷ place rank x qs

unfoldable pub erase : ℕ → List ℕ → List ℕ
erase x [] = []
erase x (q ∷ qs) = if q == x then qs else q ∷ erase x qs

abbrev pub rank : (ℕ → Pcb) → ℕ → ℤ
rank f q = (f q).priority

-- A queue does not change with blocks that are not in it.
pub Linked-frame :
    (f g : ℕ → Pcb) (p : ℕ) (qs : List ℕ)
    → ((q : ℕ) → has q qs ≡ true → g q ≡ f q)
    → Linked f p qs
    → Linked g p qs
Linked-frame f g p [] same l = l
Linked-frame f g p (q ∷ qs) same l = (
  l.0,
  l.1,
  rw (same q (ground arith))
      (Linked-frame f g (f q).next_pcb qs (λ x h. same x (ground arith)) l.2),
)

pub Linked-set_next :
    (f : ℕ → Pcb) (p x v : ℕ) (qs : List ℕ)
    → has x qs ≡ false
    → Linked f p qs
    → Linked (set_next f x v) p qs
Linked-set_next f p x v qs out l = Linked-frame f (set_next f x v) p qs (λ q h. ground arith) l

pub has-place : (r : ℕ → ℤ) (x a : ℕ) (qs : List ℕ) → has a (place r x qs) ≡ (a == x || has a qs)
unfolding place
has-place r x a [] = refl
has-place r x a (q ∷ qs) = ground (arith, has-place r x a qs)

pub length-place : (r : ℕ → ℤ) (x : ℕ) (qs : List ℕ) → length (place r x qs) ≡ length qs + 1
unfolding place
length-place r x [] = refl
length-place r x (q ∷ qs) = ground (arith, length-place r x qs)

pub Distinct-place :
    (r : ℕ → ℤ) (x : ℕ) (qs : List ℕ) → has x qs ≡ false → Distinct qs → Distinct (place r x qs)
unfolding place
Distinct-place r x [] out d = (refl, tt)
Distinct-place r x (q ∷ qs) out d =
    if_cases Distinct (ltb_ℤ (r x) (r q)) (λ _. (out, d))
      (λ _. (ground (arith, has-place r x q qs), Distinct-place r x qs (ground arith) d.1))

pub has-erase :
    (x a : ℕ) (qs : List ℕ) → Distinct qs → has a (erase x qs) ≡ (not (a == x) && has a qs)
unfolding erase
has-erase x a [] d = ground arith
has-erase x a (q ∷ qs) d = ground (arith, has-erase x a qs d.1)

pub Distinct-erase : (x : ℕ) (qs : List ℕ) → Distinct qs → Distinct (erase x qs)
unfolding erase
Distinct-erase x [] d = tt
Distinct-erase x (q ∷ qs) d =
    if_cases Distinct (q == x) (λ _. d.1)
      (λ _. (ground (arith, has-erase x q qs d.1), Distinct-erase x qs d.1))
