-- ===== src/Pcb/Find.antt =====
-- `pcb_find` of kernel/pcb.c: the first process of a name, in the ready and then the suspended queue.
use Prim.Native.String.{String}
use mathlib.Core.Path.{subst}
use mpx.Base.{
  ℕ, zero, suc, ◌<◌, ◌≡◌, ◌≢◌, refl, sym, ◌⊎◌, inl, inr, Bool, true, false, ◌&&◌, if◌then◌else◌,
  List, [], ◌∷◌, ◌++◌, arith, ◌==◌, Bool-cases, length,
}
use mpx.Base.Int.{ℤ, pos, eqb_ℤ, eqb_ℤ→eq}
use mpx.Base.Run.{ok, Returns, returns, Returns-mono, Returns-bind, returned}
use mpx.CString.{strcmp}
use mpx.CString.Laws.{NoNul, c_string, Compared, strcmp_lem}
use mpx.Pcb.{Pcb, Queues, null, ready, suspended, find_from, pcb_find}
use mpx.Pcb.Queue.{Linked, IsQueue}

-- The processes `qs` are called by `name`: NUL-terminated texts without NUL bytes.
abbrev pub AreNamed : (ℕ → Pcb) → (ℕ → List ℕ) → List ℕ → Type 0
AreNamed f name [] = Unit {0}
AreNamed f name (q ∷ qs) =
    (NoNul (name q) × ((rest : List ℕ) × ((f q).name ≡ c_string (name q) rest)))
    × AreNamed f name qs

-- `p` is the first of `qs` that has the name `t`, or NULL if none has it.
abbrev pub Finds : (ℕ → List ℕ) → List ℕ → List ℕ → ℕ → Type 0
Finds name t [] p = p ≡ null
Finds name t (q ∷ qs) p = ((name q ≡ t) × (p ≡ q)) ⊎ (name q ≢ t) × Finds name t qs p

find_none :
    (fuel : ℕ) (t : List ℕ) (name : ℕ → List ℕ) (s : List ℕ) (f : ℕ → Pcb)
    → Returns (Finds name t []) (find_from (suc fuel) s null f)
unfolding find_from
find_none fuel t name s f = returns refl

module _ (fuel : ℕ) (s : List ℕ) (p : ℕ) (f : ℕ → Pcb) (low : 0 < p) (r : ℤ) where
  found_here :
      strcmp s (f p).name ≡ ok r → eqb_ℤ r (pos 0) ≡ true → find_from (suc fuel) s p f ≡ ok p
  unfolding find_from
  found_here e h = let here : (p == null) ≡ false = ground arith in rw (here, e) (ground (arith, h))

  found_behind :
      strcmp s (f p).name ≡ ok r
      → eqb_ℤ r (pos 0) ≡ false
      → find_from (suc fuel) s p f ≡ find_from fuel s (f p).next_pcb f
  unfolding find_from
  found_behind e h =
      let here : (p == null) ≡ false = ground arith in rw (here, e) (ground (arith, h))

other : (t n : List ℕ) (r : ℤ) → Compared t n r → eqb_ℤ r (pos 0) ≡ false → n ≢ t
other t n r same differ e = let z : r ≡ pos 0 = same.0.1 (sym e) in ground (arith, z)

compare_first :
    (fuel : ℕ) (t s : List ℕ) (q : ℕ) (f : ℕ → Pcb) (name : ℕ → List ℕ) (qs : List ℕ)
    → 0 < q
    → Returns (Compared t (name q)) (strcmp s (f q).name)
    → Returns (Finds name t qs) (find_from fuel s (f q).next_pcb f)
    → Returns (Finds name t (q ∷ qs)) (find_from (suc fuel) s q f)
compare_first fuel t s q f name qs low c ih =
    let (r, e, same) = returned c in
    elim (Bool-cases (eqb_ℤ r (pos 0))) [
      | inl yes_same ↦
          rw (found_here fuel s q f low r e yes_same)
            (returns (inl (sym (same.0.0 (eqb_ℤ→eq r (pos 0) yes_same)), refl)))
      | inr differ ↦
          rw (found_behind fuel s q f low r e differ)
            (Returns-mono ih λ p found. inr (other t (name q) r same differ, found))
    ]

AreNamed-split :
    (f : ℕ → Pcb) (name : ℕ → List ℕ) (rs ss : List ℕ)
    → AreNamed f name (rs ++ ss)
    → AreNamed f name rs × AreNamed f name ss
AreNamed-split f name [] ss h = (tt, h)
AreNamed-split f name (r ∷ rs) ss h = let (a, b) = AreNamed-split f name rs ss h.1 in ((h.0, a), b)

Finds-before :
    (name : ℕ → List ℕ) (t : List ℕ) (rs ss : List ℕ) (p : ℕ)
    → 0 < p
    → Finds name t rs p
    → Finds name t (rs ++ ss) p
Finds-before name t [] ss p low e = absurd (omega arith)
Finds-before name t (r ∷ rs) ss p low (inl h) = inl h
Finds-before name t (r ∷ rs) ss p low (inr (ne, h)) = inr (ne, Finds-before name t rs ss p low h)

Finds-behind :
    (name : ℕ → List ℕ) (t : List ℕ) (rs ss : List ℕ) (p q : ℕ)
    → (f : ℕ → Pcb) (h : ℕ) → Linked f h rs
    → p ≡ null
    → Finds name t rs p
    → Finds name t ss q
    → Finds name t (rs ++ ss) q
Finds-behind name t [] ss p q f z l e h k = k
Finds-behind name t (r ∷ rs) ss p q f z l e (inl h) k = absurd (omega arith)
Finds-behind name t (r ∷ rs) ss p q f z l e (inr (ne, h)) k =
    inr (ne, Finds-behind name t rs ss p q f (f r).next_pcb l.2 e h k)

find_from-Finds :
    (fuel : ℕ) (t rest : List ℕ) (p : ℕ) (f : ℕ → Pcb) (name : ℕ → List ℕ) (qs : List ℕ)
    → NoNul t
    → AreNamed f name qs
    → Linked f p qs
    → length qs < fuel
    → Returns (Finds name t qs) (find_from fuel (c_string t rest) p f)
find_from-Finds zero t rest p f name qs k named l m = absurd (omega arith)
find_from-Finds (suc fuel) t rest p f name [] k named l m =
    rw (l) (find_none fuel t name (c_string t rest) f)
find_from-Finds (suc fuel) t rest p f name (q ∷ qs) k named l m =
    subst (λ x. Returns (Finds name t (q ∷ qs)) (find_from (suc fuel) (c_string t rest) x f))
      (sym l.0)
      (compare_first fuel t (c_string t rest) q f name qs l.1
        (subst (λ b. Returns (Compared t (name q)) (strcmp (c_string t rest) b)) (sym named.0.1.1)
          (strcmp_lem t (name q) rest named.0.1.0 k named.0.0))
        (find_from-Finds fuel t rest (f q).next_pcb f name qs k named.1 l.2 (omega arith)))

-- and that it is found without a message
abbrev pub FindsQuietly : (ℕ → List ℕ) → List ℕ → List ℕ → ℕ × List String → Type 0
FindsQuietly name t qs (p, texts) = Finds name t qs p × (0 < p → texts ≡ [])

no_message :
    (q : ℕ) (b : Bool) (texts : List String) → 0 < q → (if q == null && b then texts else []) ≡ []
no_message q b texts low = let here : (q == null) ≡ false = ground arith in rw here refl

pub pcb_find-FindsQuietly :
    (fuel : ℕ) (t rest : List ℕ) (k : Queues) (name : ℕ → List ℕ) (rs ss : List ℕ)
    → NoNul t
    → IsQueue ready k rs
    → IsQueue suspended k ss
    → AreNamed k.pcb name (rs ++ ss)
    → length rs < fuel
    → length ss < fuel
    → Returns (FindsQuietly name t (rs ++ ss)) (pcb_find fuel (c_string t rest) k)
unfolding pcb_find
pcb_find-FindsQuietly fuel t rest k name rs ss n r s named m l =
    let split = AreNamed-split k.pcb name rs ss named in
    Returns-bind (find_from-Finds fuel t rest k.ready_head k.pcb name rs n split.0 r.linked m)
      λ p found. elim (Bool-cases (p == null)) [
        | inl missing ↦ rw missing (
            Returns-bind
              (find_from-Finds fuel t rest k.suspended_head k.pcb name ss n split.1 s.linked l)
              λ q behind. returns (
                Finds-behind name t rs ss p q k.pcb k.ready_head r.linked (ground arith) found
                    behind,
                no_message q _ _,
              ))
        | inr here ↦ rw here (returns (Finds-before name t rs ss p (ground arith) found, λ _. refl))
      ]

-- With names that are NUL-terminated texts, and fuel beyond the longer queue, `pcb_find` of a text
-- returns the first process of that name in the ready queue and then the suspended one, and NULL
-- exactly if none of these has it; processes that are only in the blocked queue are never found.
pub pcb_find-Finds :
    (fuel : ℕ) (t rest : List ℕ) (k : Queues) (name : ℕ → List ℕ) (rs ss : List ℕ)
    → NoNul t
    → IsQueue ready k rs
    → IsQueue suspended k ss
    → AreNamed k.pcb name (rs ++ ss)
    → length rs < fuel
    → length ss < fuel
    → Returns (λ (p, texts). Finds name t (rs ++ ss) p) (pcb_find fuel (c_string t rest) k)
pcb_find-Finds fuel t rest k name rs ss n r s named m l =
    Returns-mono (pcb_find-FindsQuietly fuel t rest k name rs ss n r s named m l)
      λ found quietly. quietly.0
