-- ===== src/CString/Laws.antt =====
-- strlen, strcmp and strcpy on NUL-terminated strings.
use mathlib.Core.Path.{ap₂}
use mpx.Base.{
  ℕ, suc, ◌+◌, ◌<◌, ◌≡◌, ◌≢◌, refl, ◌↔◌, List, [], ◌∷◌, ◌++◌, arith, ◌==◌, Bool-cases, length, ◌⊎◌,
  inl, inr, drop,
}
use mpx.Base.Int.{ℤ, pos, sub_ℕ, ◌<ℤ◌}
use mpx.Base.Run.{ok, Returns, returns, Returns-mono}
use mpx.CString.{strlen, strcmp, strcpy, memcpy}

-- no byte of the text is NUL
abbrev pub NoNul : List ℕ → Type 0
NoNul [] = Unit {0}
NoNul (c ∷ s) = (0 < c) × NoNul s

-- the array from a pointer to the text `s` on, with `rest` behind the NUL
abbrev pub c_string : List ℕ → List ℕ → List ℕ
c_string s rest = s ++ (0 ∷ rest)

-- `strlen` of a text without NUL bytes, with a NUL behind it, is its length.
pub strlen_lem : (s rest : List ℕ) → NoNul s → strlen (c_string s rest) ≡ ok (length s)
unfolding strlen
strlen_lem [] rest h = refl
strlen_lem (c ∷ s) rest h = ground (arith, strlen_lem s rest h.1)

-- `strcpy` of a text without NUL bytes, into an array with room for it and its NUL, writes both
-- there and leaves the bytes behind as they were.
pub strcpy_lem :
    (s rest old behind : List ℕ)
    → NoNul s
    → length old ≡ length s + 1
    → strcpy (old ++ behind) (c_string s rest) ≡ ok (c_string s behind)
unfolding strcpy
strcpy_lem [] rest [] behind h e = absurd (omega arith)
strcpy_lem [] rest (d ∷ []) behind h e = refl
strcpy_lem [] rest (d ∷ d' ∷ old) behind h e = absurd (omega arith)
strcpy_lem (c ∷ s) rest [] behind h e = absurd (omega arith)
strcpy_lem (c ∷ s) rest (d ∷ old) behind h e =
    ground (arith, strcpy_lem s rest old behind h.1 (omega arith))

-- The order of texts by their bytes.
abbrev pub Before : List ℕ → List ℕ → Type 0
Before s [] = ⊥
Before [] (d ∷ t) = Unit {0}
Before (c ∷ s) (d ∷ t) = (c < d) ⊎ (c ≡ d) × Before s t

strcmp_same : (c d : ℕ) (s t : List ℕ) → c ≡ d → 0 < c → strcmp (c ∷ s) (d ∷ t) ≡ strcmp s t
unfolding strcmp
strcmp_same c d s t e h = ground arith

strcmp_differ : (c d : ℕ) (s t : List ℕ) → c ≢ d → strcmp (c ∷ s) (d ∷ t) ≡ ok (sub_ℕ c d)
unfolding strcmp
strcmp_differ c d s t h = ground arith

-- what the result of `strcmp` says of the two texts
abbrev pub Compared : List ℕ → List ℕ → ℤ → Type 0
Compared s t r = ((r ≡ pos 0) ↔ (s ≡ t)) × ((r <ℤ pos 0) ↔ Before s t)

head_same : (c d : ℕ) (s t : List ℕ) → c ≡ d → (r : ℤ) → Compared s t r → Compared (c ∷ s) (d ∷ t) r
head_same c d s t e r (eq, less) = (
  (λ z. ap₂ ◌∷◌ e (eq.0 z), λ l. eq.1 (cc)),
  (λ z. inr (e, less.0 z), λ b. less.1 (elim b [ inl lt ↦ absurd (omega arith) | inr x ↦ x.1 ])),
)

head_differ : (c d : ℕ) (s t : List ℕ) → c ≢ d → Compared (c ∷ s) (d ∷ t) (sub_ℕ c d)
head_differ c d s t h = (
  (λ z. absurd (ground arith), λ l. absurd (h (cc))),
  (λ z. inl (ground arith), λ b. elim b [ inl lt ↦ ground arith | inr x ↦ absurd (h x.0) ]),
)

-- Of two texts without NUL bytes, each with a NUL behind it, `strcmp` returns, and its result is 0 exactly on equal texts and negative exactly if the first
-- text comes before the second.
pub strcmp_lem :
    (s t rest rest' : List ℕ)
    → NoNul s
    → NoNul t
    → Returns (Compared s t) (strcmp (c_string s rest) (c_string t rest'))
unfolding strcmp
strcmp_lem [] [] rest rest' h k =
    returns ((λ _. refl, λ _. refl), (λ less. absurd (omega arith), λ b. elim b [ ]))
strcmp_lem [] (d ∷ t) rest rest' h k =
    returns ((λ e. ground arith, λ e. cc), (λ _. tt, λ _. ground arith))
strcmp_lem (c ∷ s) [] rest rest' h k =
    rw (strcmp_differ c 0 (s ++ (0 ∷ rest)) rest' (omega arith))
      (returns ((λ e. ground arith, λ e. cc), (λ less. ground arith, λ b. elim b [ ])))
strcmp_lem (c ∷ s) (d ∷ t) rest rest' h k = elim (Bool-cases (c == d)) [
  | inl same ↦
      let e : c ≡ d = ground arith in
      rw (strcmp_same c d (s ++ (0 ∷ rest)) (t ++ (0 ∷ rest')) e h.0)
        (Returns-mono (strcmp_lem s t rest rest' h.1 k.1) (head_same c d s t e))
  | inr differ ↦
      rw (strcmp_differ c d (s ++ (0 ∷ rest)) (t ++ (0 ∷ rest')) (ground arith))
        (returns (head_differ c d s t (ground arith)))
]

-- The copy of a text with its NUL leaves the bytes behind as they were.
pub memcpy-nul :
    (text rest old : List ℕ)
    → length text < length old
    → memcpy old (c_string text rest) (suc (length text))
      ≡ ok (c_string text (drop (suc (length text)) old))
unfolding memcpy
memcpy-nul [] rest [] h = absurd (omega arith)
memcpy-nul [] rest (x ∷ old) h = refl
memcpy-nul (c ∷ text) rest [] h = absurd (omega arith)
memcpy-nul (c ∷ text) rest (x ∷ old) h = rw (memcpy-nul text rest old (omega arith)) refl
