-- ===== src/Heap/Layout.antt =====
-- What first fit and freeing do to the layout of the heap: free blocks stay apart, allocated blocks
-- stay where they are, and an allocation followed by its release changes nothing.
use mathlib.Core.Path.{subst}
use mathlib.Core.Option
use mpx.Base.{
  ℕ, ◌+◌, ◌-◌, ◌≤◌, ◌<◌, ◌≡◌, ◌≢◌, refl, ◌∙◌, ◌⊎◌, inl, inr, Bool, true, false, not, ◌&&◌, Option,
  some, none, List, [], ◌∷◌, ◌++◌, arith, ltb, leb, ◌==◌, Bool-cases, ==_refl, if_cases, sym, ap,
  ltb→lt,
}
use mpx.Heap.{null, header_bytes, start}
use mpx.Heap.Blocks.{Block, after}
use mpx.Heap.Alloc.{carve, first_fit}
use mpx.Heap.Free.{freed, joined, absorb, join_before, release_behind, release}

-- No two free blocks stand next to one another; `before` says whether one stands in front.
abbrev pub Separated : Bool → List Block → Type 0
Separated before [] = Unit {0}
Separated before (b ∷ bs) = ((before && b.free) ≡ false) × Separated b.free bs

Separated-false : (t : Bool) (bs : List Block) → Separated t bs → Separated false bs
Separated-false t [] s = tt
Separated-false t (b ∷ bs) s = (refl, s.1)

carve-Separated :
    (sz : ℕ) (t : Bool) (b : Block) (bs : List Block)
    → b.free ≡ true
    → Separated t (b ∷ bs)
    → Separated t (carve sz b ++ bs)
unfolding carve
carve-Separated sz t b bs fr s =
    let rest : Separated true bs = subst (λ x. Separated x bs) fr s.1 in
    if_cases (λ l. Separated t (l ++ bs)) (ltb (sz + header_bytes) b.size)
      (λ _. (ground arith, (refl, rest))) (λ _. (ground arith, Separated-false true bs rest))

-- First fit keeps free blocks apart.
pub first_fit-Separated :
    (sz a : ℕ) (t : Bool) (bs : List Block) → Separated t bs → Separated t (first_fit sz a bs).1
unfolding first_fit
first_fit-Separated sz a t [] s = tt
first_fit-Separated sz a t (b ∷ bs) s =
    if_cases (λ (r : ℕ × List Block). Separated t r.1) (leb sz b.size && b.free)
      (λ fit. carve-Separated sz t b bs (ground arith) s)
      (λ _. (s.0, first_fit-Separated sz (after a b) b.free bs s.1))

abbrev HeadFree : List Block → Type 0
HeadFree [] = ⊥
HeadFree (b ∷ bs) = b.free ≡ true

absorb-Separated :
    (b : Block) (bs : List Block)
    → Separated false bs
    → Separated false (absorb (freed b) bs) × HeadFree (absorb (freed b) bs)
unfolding absorb
absorb-Separated b [] s = ((refl, tt), refl)
absorb-Separated b (d ∷ bs) s =
    if_cases (λ l. Separated false l × HeadFree l) d.free
      (λ fr. ((refl, subst (λ x. Separated x bs) fr s.1), refl))
      (λ busy. ((refl, (busy, s.1)), refl))

join_before-Separated :
    (t : Bool) (p : Block) (bs : List Block)
    → (t && p.free) ≡ false
    → Separated false bs
    → HeadFree bs
    → Separated t (join_before p bs)
unfolding join_before
join_before-Separated t p [] e s h = elim h [ ]
join_before-Separated t p (b ∷ bs) e s h =
    if_cases (Separated t) p.free (λ fr. (e, subst (λ x. Separated x bs) (h ∙ sym fr) s.1))
      (λ busy. (e, (ground arith, s.1)))

abbrev OptionAll : (List Block → Type 0) → Option (List Block) → Type 0
OptionAll P none = Unit {0}
OptionAll P (some bs) = P bs

OptionAll-map :
    (P Q : List Block → Type 0) (f : List Block → List Block) (o : Option (List Block))
    → ((bs : List Block) → P bs → Q (f bs))
    → OptionAll P o
    → OptionAll Q (Option.map f o)
OptionAll-map P Q f none step h = tt
OptionAll-map P Q f (some bs) step h = step bs h

release_behind-Separated :
    (ptr q : ℕ) (t : Bool) (p : Block) (bs : List Block)
    → Separated t (p ∷ bs)
    → OptionAll (Separated t) (release_behind ptr q p bs)
unfolding release_behind
release_behind-Separated ptr q t p [] s = tt
release_behind-Separated ptr q t p (b ∷ bs) s =
    if_cases (OptionAll (Separated t)) (start (after q p) == ptr && not b.free)
      (λ _.
        let done = absorb-Separated b bs (Separated-false b.free bs s.1.1) in
        join_before-Separated t p (absorb (freed b) bs) s.0 done.0 done.1)
      (λ _.
        OptionAll-map (Separated p.free) (Separated t) (λ rest. p ∷ rest)
          (release_behind ptr (after q p) b bs) (λ _ rest. (s.0, rest))
          (release_behind-Separated ptr (after q p) p.free b bs s.1))

-- Freeing keeps free blocks apart.
pub release-Separated :
    (ptr a : ℕ) (bs : List Block)
    → Separated false bs
    → OptionAll (Separated false) (release ptr a bs)
unfolding release
release-Separated ptr a [] s = tt
release-Separated ptr a (b ∷ bs) s =
    if_cases (OptionAll (Separated false)) (start a == ptr && not b.free)
      (λ _. (absorb-Separated b bs (Separated-false b.free bs s.1)).0)
      (λ _. release_behind-Separated ptr a false b bs s)

-- The blocks that first fit finds lie at or behind the address that it starts from.
first_fit-ge :
    (sz a : ℕ) (bs : List Block)
    → ((first_fit sz a bs).0 ≡ null) ⊎ (start a ≤ (first_fit sz a bs).0)
unfolding first_fit
first_fit-ge sz a [] = inl refl
first_fit-ge sz a (b ∷ bs) =
    if_cases (λ (r : ℕ × List Block). (r.0 ≡ null) ⊎ (start a ≤ r.0)) (leb sz b.size && b.free)
      (λ _. inr (omega arith)) (λ _. omega (arith, first_fit-ge sz (after a b) bs))

apart_of_ge :
    (a : ℕ) (b : Block) (p : ℕ)
    → (p ≡ null) ⊎ (start (after a b) ≤ p)
    → p ≢ null
    → (start a == p) ≡ false
apart_of_ge a b p ge found = ground arith

absorb_apart : (b : Block) (bs : List Block) → Separated true bs → absorb b bs ≡ b ∷ bs
unfolding absorb
absorb_apart b [] s = refl
absorb_apart b (d ∷ bs) s = ground (arith, s.0)

freed_self : (b : Block) → b.free ≡ true → freed b ≡ b
freed_self b fr = ground arith

-- Freeing the front of a block that was carved gives the block back.
carved_back :
    (sz : ℕ) (b : Block)
    → b.free ≡ true
    → sz + header_bytes < b.size
    → joined
        (record { size = sz; free = true })
        (record { size = b.size - sz - header_bytes; free = true })
      ≡ b
carved_back sz b fr big = ground arith

-- With free blocks apart, the release of what first fit returned gives the blocks back.
module _ (sz : ℕ) (b : Block) (bs : List Block) (fr : b.free ≡ true) (s : Separated true bs) where
  release_behind-carve :
      (q : ℕ) (p : Block)
      → release_behind (start (after q p)) q p (carve sz b ++ bs) ≡ some (join_before p (b ∷ bs))
  unfolding release_behind carve absorb
  release_behind-carve q p = elim (Bool-cases (ltb (sz + header_bytes) b.size)) [
    | inl big ↦
        rw (big, ==_refl (start (after q p)))
          (ap (λ d. some (join_before p (d ∷ bs))) (carved_back sz b fr (ltb→lt _ _ big)))
    | inr tight ↦
        rw (tight, ==_refl (start (after q p)))
          (ap (λ l. some (join_before p l))
            (absorb_apart (freed b) bs s ∙ ap (λ d. d ∷ bs) (freed_self b fr)))
  ]

  release-carve : (a : ℕ) → release (start a) a (carve sz b ++ bs) ≡ some (b ∷ bs)
  unfolding release carve absorb
  release-carve a = elim (Bool-cases (ltb (sz + header_bytes) b.size)) [
    | inl big ↦
        rw (big, ==_refl (start a)) (ap (λ d. some (d ∷ bs)) (carved_back sz b fr (ltb→lt _ _ big)))
    | inr tight ↦
        rw (tight, ==_refl (start a))
          (ap some (absorb_apart (freed b) bs s ∙ ap (λ d. d ∷ bs) (freed_self b fr)))
  ]

join_before-busy : (p : Block) (bs : List Block) → p.free ≡ false → join_before p bs ≡ p ∷ bs
unfolding join_before
join_before-busy p [] e = refl
join_before-busy p (b ∷ bs) e = ground arith

release_behind-first_fit :
    (sz q : ℕ) (p : Block) (bs : List Block)
    → Separated p.free bs
    → (first_fit sz (after q p) bs).0 ≢ null
    → release_behind (first_fit sz (after q p) bs).0 q p (first_fit sz (after q p) bs).1
      ≡ some (p ∷ bs)
unfolding release_behind first_fit
release_behind-first_fit sz q p [] s found = absurd (found refl)
release_behind-first_fit sz q p (b ∷ bs) s found = elim (Bool-cases (leb sz b.size && b.free)) [
  | inl fit ↦
      let fr : b.free ≡ true = ground arith in
      rw fit (
        release_behind-carve sz b bs fr (subst (λ x. Separated x bs) fr s.1) q p
        ∙ ap some (join_before-busy p (b ∷ bs) (ground arith)))
  | inr miss ↦
      let found' : (first_fit sz (after (after q p) b) bs).0 ≢ null = rw miss at found in
      rw (miss, apart_of_ge (after q p) b _ (first_fit-ge sz (after (after q p) b) bs) found')
        (ap (Option.map (λ rest. p ∷ rest))
          (release_behind-first_fit sz (after q p) b bs s.1 found'))
]

pub release-first_fit :
    (sz a : ℕ) (bs : List Block)
    → Separated false bs
    → (first_fit sz a bs).0 ≢ null
    → release (first_fit sz a bs).0 a (first_fit sz a bs).1 ≡ some bs
unfolding release first_fit
release-first_fit sz a [] s found = absurd (found refl)
release-first_fit sz a (b ∷ bs) s found = elim (Bool-cases (leb sz b.size && b.free)) [
  | inl fit ↦
      let fr : b.free ≡ true = ground arith in
      rw fit (release-carve sz b bs fr (subst (λ x. Separated x bs) fr s.1) a)
  | inr miss ↦
      let found' : (first_fit sz (after a b) bs).0 ≢ null = rw miss at found in
      rw (miss, apart_of_ge a b _ (first_fit-ge sz (after a b) bs) found')
        (release_behind-first_fit sz a b bs s.1 found')
]
