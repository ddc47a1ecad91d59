-- ===== src/CString/Itoa/Reverse.antt =====
-- The in-place reversal of `itoa`.
use mathlib.Core.List.{reverse, append_assoc, reverse-append}
use mathlib.Core.Path.{subst}
use mpx.Base.{
  ℕ, zero, suc, ◌+◌, ◌-◌, ◌<◌, ◌≤◌, ◌≡◌, refl, ◌∙◌, ap, sym, false, some, List, [], ◌∷◌, ◌++◌,
  arith, ltb, lt→ltb, length, length-append, get_elem?, set,
}
use mpx.Base.Run.{ok}
use mpx.CString.Itoa.{exchange, swap, reverse_loop}

get_elem?-length :
    (n : ℕ) (pre rest : List ℕ) (x : ℕ) → n ≡ length pre → get_elem? (pre ++ x ∷ rest) n ≡ some x
get_elem?-length n [] rest x e = rw e refl
get_elem?-length zero (y ∷ pre) rest x e = absurd (omega arith)
get_elem?-length (suc n) (y ∷ pre) rest x e = get_elem?-length n pre rest x (omega arith)

set-length :
    (n : ℕ) (pre rest : List ℕ) (x v : ℕ)
    → n ≡ length pre
    → set (pre ++ x ∷ rest) n v ≡ pre ++ v ∷ rest
set-length n [] rest x v e = rw e refl
set-length zero (y ∷ pre) rest x v e = absurd (omega arith)
set-length (suc n) (y ∷ pre) rest x v e = ap (λ l. y ∷ l) (set-length n pre rest x v (omega arith))

exchange-some :
    (s e a b : ℕ) (str : List ℕ) → exchange s e (some a) (some b) str ≡ ok (set (set str s b) e a)
unfolding exchange
exchange-some s e a b str = refl

swap-some :
    (s e a b : ℕ) (str : List ℕ)
    → get_elem? str s ≡ some a
    → get_elem? str e ≡ some b
    → swap s e str ≡ ok (set (set str s b) e a)
unfolding swap
swap-some s e a b str h k =
    ap (λ x. exchange s e x (get_elem? str e) str) h
    ∙ ap (λ y. exchange s e (some a) y str) k
    ∙ exchange-some s e a b str

-- the swap of the two ends of a stretch
swap_ends :
    (s e : ℕ) (pre mid post : List ℕ) (a b : ℕ)
    → s ≡ length pre
    → e ≡ length pre + length mid + 1
    → swap s e (pre ++ a ∷ mid ++ b ∷ post) ≡ ok (pre ++ b ∷ mid ++ a ∷ post)
swap_ends s e pre mid post a b h k =
    let whole : pre ++ a ∷ mid ++ b ∷ post ≡ pre ++ a ∷ (mid ++ b ∷ post) =
      append_assoc pre (a ∷ mid) (b ∷ post) in
    let half : pre ++ b ∷ (mid ++ b ∷ post) ≡ pre ++ b ∷ mid ++ b ∷ post =
      sym (append_assoc pre (b ∷ mid) (b ∷ post)) in
    swap-some s e a b (pre ++ a ∷ mid ++ b ∷ post)
      (ap (λ l. get_elem? l s) whole ∙ get_elem?-length s pre (mid ++ b ∷ post) a h)
      (get_elem?-length e (pre ++ a ∷ mid) post b (omega (arith, length-append pre (a ∷ mid))))
    ∙ ap (λ l. ok (set (set l s b) e a)) whole
    ∙ ap (λ l. ok (set l e a)) (set-length s pre (mid ++ b ∷ post) a b h ∙ half)
    ∙ ap ok (set-length e (pre ++ b ∷ mid) post b a (omega (arith, length-append pre (b ∷ mid))))

reverse_loop-go :
    (fuel s e : ℕ) (str str' : List ℕ)
    → s < e
    → swap s e str ≡ ok str'
    → reverse_loop (suc fuel) s e str ≡ reverse_loop fuel (s + 1) (e - 1) str'
unfolding reverse_loop
reverse_loop-go fuel s e str str' h k = rw (lt→ltb s e h, k) refl

reverse_loop-stop : (fuel s e : ℕ) (str : List ℕ) → e ≤ s → reverse_loop (suc fuel) s e str ≡ ok str
unfolding reverse_loop
reverse_loop-stop fuel s e str h = let done : ltb s e ≡ false = ground arith in rw done refl

unsnoc :
    (x : ℕ) (xs : List ℕ)
    → (ys : List ℕ) × (y : ℕ) × (x ∷ xs ≡ ys ++ y ∷ []) × (length ys ≡ length xs)
unsnoc x [] = ([], x, refl, refl)
unsnoc x (z ∷ xs) = let (ys, y, e, l) = unsnoc z xs in (x ∷ ys, y, ap (λ t. x ∷ t) e, ap suc l)

turned :
    (pre mid post : List ℕ) (a b : ℕ)
    → pre ++ b ∷ [] ++ (reverse mid ++ a ∷ post) ≡ pre ++ (reverse (a ∷ (mid ++ b ∷ [])) ++ post)
turned pre mid post a b =
    let spread : pre ++ b ∷ [] ++ (reverse mid ++ a ∷ post)
        ≡ pre ++ (b ∷ reverse mid ++ a ∷ [] ++ post) =
      simp append_assoc in
    spread
    ∙ ap (λ l. pre ++ (l ++ post))
        (sym (
          reverse-append (a ∷ []) (mid ++ b ∷ [])
          ∙ ap (λ l. l ++ a ∷ []) (reverse-append mid (b ∷ []))))

opened :
    (pre mid post : List ℕ) (a b : ℕ)
    → pre ++ (a ∷ (mid ++ b ∷ []) ++ post) ≡ pre ++ a ∷ mid ++ b ∷ post
opened pre mid post a b = simp append_assoc

regrouped :
    (pre mid post : List ℕ) (a b : ℕ)
    → pre ++ b ∷ mid ++ a ∷ post ≡ pre ++ b ∷ [] ++ (mid ++ a ∷ post)
regrouped pre mid post a b = simp append_assoc

-- The stretch from `s` to `e` is reversed, and the rest stays.
pub reverse_loop_lem :
    (fuel s e : ℕ) (pre m post : List ℕ)
    → s ≡ length pre
    → s + length m ≡ e + 1
    → length m < fuel
    → reverse_loop fuel s e (pre ++ (m ++ post)) ≡ ok (pre ++ (reverse m ++ post))
reverse_loop_lem zero s e pre m post h k l = absurd (omega arith)
reverse_loop_lem (suc fuel) s e pre [] post h k l =
    reverse_loop-stop fuel s e (pre ++ post) (omega arith)
reverse_loop_lem (suc fuel) s e pre (a ∷ []) post h k l =
    reverse_loop-stop fuel s e (pre ++ a ∷ post) (omega arith)
reverse_loop_lem (suc fuel) s e pre (a ∷ c ∷ r) post h k l =
    let (mid, b, split, n) = unsnoc c r in
    subst
      (λ t.
        reverse_loop (suc fuel) s e (pre ++ (a ∷ t ++ post))
        ≡ ok (pre ++ (reverse (a ∷ t) ++ post)))
      (sym split)
      (ap (reverse_loop (suc fuel) s e) (opened pre mid post a b)
        ∙ reverse_loop-go fuel s e _ _ (omega arith)
            (swap_ends s e pre mid post a b h (omega (arith, n)))
        ∙ ap (reverse_loop fuel (s + 1) (e - 1)) (regrouped pre mid post a b)
        ∙ reverse_loop_lem fuel (s + 1) (e - 1) (pre ++ b ∷ []) mid (a ∷ post)
            (omega (arith, length-append pre (b ∷ []))) (omega (arith, n)) (omega (arith, n))
        ∙ ap ok (turned pre mid post a b))
