-- ===== src/CString/Strtok.antt =====
-- What one call of `strtok` of lib/string.c finds.
use mathlib.Core.List.{append_assoc}
use mpx.Base.{
  ℕ, ◌+◌, ◌<◌, ◌≡◌, refl, ◌∙◌, ap, ◌⊎◌, inl, inr, true, false, none, some, List, [], ◌∷◌, ◌++◌,
  arith, ◌==◌, if◌then◌else◌, length, length-append, set, drop,
}
use mpx.Base.Run.{ok}
use mpx.CString.{is_delim, skip_delims, find_delim, Tokens, strtok}

-- bytes that are all delimiters; bytes of which none is a delimiter or NUL
abbrev pub Delims : List ℕ → List ℕ → Type 0
Delims s2 [] = Unit {0}
Delims s2 (c ∷ s) = ((0 < c) × (is_delim s2 c ≡ true)) × Delims s2 s

abbrev pub IsWord : List ℕ → List ℕ → Type 0
IsWord s2 [] = Unit {0}
IsWord s2 (c ∷ s) = ((0 < c) × (is_delim s2 c ≡ false)) × IsWord s2 s

module _ (s2 : List ℕ) (c : ℕ) (s : List ℕ) (n : ℕ) where
  skip_delims-delim :
      (p : List ℕ)
      → 0 < c
      → is_delim p c ≡ true
      → skip_delims s2 (c ∷ s) p n ≡ skip_delims s2 s s2 (n + 1)
  unfolding skip_delims is_delim
  skip_delims-delim [] h d = cc
  skip_delims-delim (x ∷ p) h d = ground (arith, skip_delims-delim p h)

  skip_delims-stop :
      (p : List ℕ) → (c ≡ 0) ⊎ (is_delim p c ≡ false) → skip_delims s2 (c ∷ s) p n ≡ ok n
  unfolding skip_delims is_delim
  skip_delims-stop [] h = refl
  skip_delims-stop (x ∷ p) (inl h) = ground arith
  skip_delims-stop (x ∷ p) (inr h) = ground (arith, skip_delims-stop p)

skip_delims_lem :
    (s2 lead : List ℕ) (c : ℕ) (s : List ℕ) (n : ℕ)
    → Delims s2 lead
    → (c ≡ 0) ⊎ (is_delim s2 c ≡ false)
    → skip_delims s2 (lead ++ (c ∷ s)) s2 n ≡ ok (n + length lead)
skip_delims_lem s2 [] c s n h k = rw (skip_delims-stop s2 c s n s2 k) (ap ok (omega arith))
skip_delims_lem s2 (x ∷ lead) c s n h k =
    rw
      (
        skip_delims-delim s2 x (lead ++ (c ∷ s)) n s2 h.0.0 h.0.1,
        skip_delims_lem s2 lead c s (n + 1) h.1 k,
      )
      (ap ok (omega arith))

skip_delims_start :
    (s2 lead : List ℕ) (c : ℕ) (s : List ℕ)
    → Delims s2 lead
    → (c ≡ 0) ⊎ (is_delim s2 c ≡ false)
    → skip_delims s2 (lead ++ (c ∷ s)) s2 0 ≡ ok (length lead)
skip_delims_start s2 lead c s h k = skip_delims_lem s2 lead c s 0 h k ∙ ap ok (omega arith)

find_delim_lem :
    (s2 word : List ℕ) (c : ℕ) (s : List ℕ) (i : ℕ)
    → IsWord s2 word
    → (c ≡ 0) ⊎ (0 < c) × (is_delim s2 c ≡ true)
    → find_delim s2 (word ++ (c ∷ s)) i ≡ ok (if c == 0 then none else some (i + length word))
unfolding find_delim
find_delim_lem s2 [] c s i h k = ground arith
find_delim_lem s2 (x ∷ word) c s i h k = ground (arith, find_delim_lem s2 word c s (i + 1) h.1 k)

drop-length : (xs ys : List ℕ) → drop (length xs) (xs ++ ys) ≡ ys
drop-length [] ys = refl
drop-length (x ∷ xs) ys = drop-length xs ys

drop_both : (xs ys zs : List ℕ) → drop (length xs + length ys) (xs ++ (ys ++ zs)) ≡ zs
drop_both xs ys zs = rw (← length-append xs ys, ← append_assoc xs ys zs) (drop-length (xs ++ ys) zs)

set-length : (xs ys : List ℕ) (y v : ℕ) → set (xs ++ (y ∷ ys)) (length xs) v ≡ xs ++ (v ∷ ys)
set-length [] ys y v = refl
set-length (x ∷ xs) ys y v = ap (λ l. x ∷ l) (set-length xs ys y v)

set_behind :
    (xs ys zs rest : List ℕ) (y v : ℕ)
    → set (xs ++ (ys ++ (zs ++ (y ∷ rest)))) (length xs + length ys + length zs) v
      ≡ xs ++ (ys ++ (zs ++ (v ∷ rest)))
set_behind xs ys zs rest y v =
    rw
      (
        ← length-append xs ys,
        ← length-append (xs ++ ys) zs,
        ← append_assoc ys zs (y ∷ rest),
        ← append_assoc ys zs (v ∷ rest),
        ← append_assoc xs (ys ++ zs) (y ∷ rest),
        ← append_assoc xs (ys ++ zs) (v ∷ rest),
        append_assoc xs ys zs,
      )
      (set-length (xs ++ (ys ++ zs)) rest y v)

module _ (t : Tokens) (s2 before lead : List ℕ) (held : Delims s2 lead) where
  -- `strtok` from an index behind which only delimiters stand up to the text's NUL returns NULL,
  -- forgets its place and writes nothing.
  pub strtok-none :
      (rest : List ℕ)
      → t.bytes ≡ before ++ (lead ++ (0 ∷ rest))
      → strtok t (some (length before)) s2 ≡ ok (none, record t { tok_tmp = none })
  unfolding strtok
  strtok-none rest e =
      rw
        (
          e,
          drop-length before (lead ++ (0 ∷ rest)),
          skip_delims_start s2 lead 0 rest held (inl refl),
          drop_both before lead (0 ∷ rest),
        )
        refl

  -- `strtok` from an index behind which delimiters, a word and a delimiter or the text's NUL stand
  -- returns the word and puts a NUL behind it; it will go on behind that, or nowhere if the text
  -- ends there.
  pub strtok-word :
      (x : ℕ) (word : List ℕ) (c : ℕ) (rest : List ℕ)
      → IsWord s2 (x ∷ word)
      → (c ≡ 0) ⊎ (0 < c) × (is_delim s2 c ≡ true)
      → t.bytes ≡ before ++ (lead ++ (x ∷ word ++ (c ∷ rest)))
      → strtok t (some (length before)) s2
        ≡ ok (
          some (length before + length lead),
          record {
            bytes = before ++ (lead ++ (x ∷ word ++ (0 ∷ rest)));
            tok_tmp =
                if c == 0 then none else some (length before + length lead + length (x ∷ word) + 1);
          },
        )
  unfolding strtok
  strtok-word x word c rest w k e =
      rw
        (
          e,
          drop-length before (lead ++ (x ∷ word ++ (c ∷ rest))),
          skip_delims_start s2 lead x (word ++ (c ∷ rest)) held (inr w.0.1),
          drop_both before lead (x ∷ word ++ (c ∷ rest)),
          find_delim_lem s2 (x ∷ word) c rest (length before + length lead) w k,
        )
        (ground (arith, set_behind before lead (x ∷ word) rest c 0))
