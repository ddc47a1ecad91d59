-- ===== src/CString/Itoa/RoundTrip.antt =====
-- `atoi` reads back what `itoa` writes in base 10.
use mathlib.Core.List.{reverse, append_assoc, append-nil, reverse-append, reverse-cons}
use mathlib.Core.Path.{subst}
use native.Mathlib.Nat.{pow-suc}
use mpx.Base.{
  ℕ, zero, suc, ◌+◌, ◌-◌, ◌*◌, ◌/◌, ◌%◌, ◌^◌, ◌<◌, ◌≤◌, ◌≡◌, refl, ◌∙◌, ap, sym, Bool, true, false,
  List, [], ◌∷◌, ◌++◌, arith, lt→ltb, ◌==◌, length, length-append, drop,
}
use mpx.Base.Int.{ℤ, pos, negsuc}
use mpx.Base.Run.{Run, ok, ◌>>=◌, Returns, returns}
use mpx.CString.{memcpy, atoi}
use mpx.CString.Number.{
  nul-IsEnd, decimal, AreDigits, digit_text, Sign, unsigned, minus, sign_text, with_sign, atoi_lem,
}
use mpx.CString.Itoa.{digit_char, digit_chars, reverse_loop, itoa_nonzero, itoa}
use mpx.CString.Itoa.Reverse.{reverse_loop_lem}

-- the number of decimal digits, the lowest first
abbrev low_value : List ℕ → ℕ
low_value [] = 0
low_value (d ∷ ds) = d + 10 * low_value ds

decimal-append :
    (acc : ℕ) (ds : List ℕ) (d : ℕ) → decimal acc (ds ++ d ∷ []) ≡ decimal acc ds * 10 + d
unfolding decimal
decimal-append acc [] d = refl
decimal-append acc (e ∷ ds) d = decimal-append (acc * 10 + e) ds d

decimal-reverse : (ds : List ℕ) → decimal 0 (reverse ds) ≡ low_value ds
unfolding decimal
decimal-reverse [] = refl
decimal-reverse (d ∷ ds) =
    ap (decimal 0) (reverse-cons d ds)
    ∙ decimal-append 0 (reverse ds) d
    ∙ omega (arith, decimal-reverse ds)

digit_text-append : (xs ys : List ℕ) → digit_text (xs ++ ys) ≡ digit_text xs ++ digit_text ys
digit_text-append [] ys = refl
digit_text-append (x ∷ xs) ys = ap (λ l. (48 + x) ∷ l) (digit_text-append xs ys)

digit_text-reverse : (ds : List ℕ) → digit_text (reverse ds) ≡ reverse (digit_text ds)
digit_text-reverse [] = refl
digit_text-reverse (d ∷ ds) =
    ap digit_text (reverse-cons d ds)
    ∙ digit_text-append (reverse ds) (d ∷ [])
    ∙ ap (λ l. l ++ (48 + d) ∷ []) (digit_text-reverse ds)
    ∙ sym (reverse-cons (48 + d) (digit_text ds))

length-digit_text : (ds : List ℕ) → length (digit_text ds) ≡ length ds
length-digit_text [] = refl
length-digit_text (d ∷ ds) = ap suc (length-digit_text ds)

AreDigits-append : (xs ys : List ℕ) → AreDigits xs → AreDigits ys → AreDigits (xs ++ ys)
AreDigits-append [] ys h k = k
AreDigits-append (x ∷ xs) ys h k = (h.0, AreDigits-append xs ys h.1 k)

AreDigits-reverse : (ds : List ℕ) → AreDigits ds → AreDigits (reverse ds)
AreDigits-reverse [] h = tt
AreDigits-reverse (d ∷ ds) h =
    subst AreDigits (sym (reverse-cons d ds))
      (AreDigits-append (reverse ds) (d ∷ []) (AreDigits-reverse ds h.1) (h.0, tt))

-- the digits that `itoa` writes
record Digits (fuel n k : ℕ) : Type 0 where
  digits : List ℕ
  written : digit_chars fuel false n 10 ≡ ok (digit_text digits)
  small : AreDigits digits
  value : low_value digits ≡ n
  few : length digits ≤ k

digit_char-plain : (r : ℕ) → r < 10 → digit_char false r ≡ 48 + r
unfolding digit_char
digit_char-plain r h = ground arith

digit_chars-stop : (fuel : ℕ) → digit_chars (suc fuel) false 0 10 ≡ ok []
unfolding digit_chars
digit_chars-stop fuel = refl

digit_chars-go :
    (fuel n : ℕ)
    → (n == 0) ≡ false
    → digit_chars (suc fuel) false n 10
      ≡ (digit_chars fuel false (n / 10) 10 >>= λ chars. ok (digit_char false (n % 10) ∷ chars))
unfolding digit_chars
digit_chars-go fuel n h = rw h refl

tenth : (n k : ℕ) → n < 10 ^ suc k → n / 10 < 10 ^ k
tenth n k h = let e : 10 ^ suc k ≡ 10 * 10 ^ k = pow-suc 10 k ∙ omega arith in omega arith

chars_of : (fuel n k : ℕ) → n < 10 ^ k → k < fuel → Digits fuel n k
chars_of zero n k h m = absurd (omega arith)
chars_of (suc fuel) zero k h m = record {
  digits = [];
  written = digit_chars-stop fuel;
  small = tt;
  value = refl;
  few = omega arith;
}
chars_of (suc fuel) (suc n) zero h m = absurd (omega arith)
chars_of (suc fuel) (suc n) (suc k) h m =
    let ih = chars_of fuel (suc n / 10) k (tenth (suc n) k h) (omega arith) in
    record {
      digits = (suc n % 10) ∷ ih.digits;
      written =
          digit_chars-go fuel (suc n) (ground arith)
          ∙ ap (λ (r : Run (List ℕ)). r >>= λ chars. ok (digit_char false (suc n % 10) ∷ chars))
              ih.written
          ∙ ap (λ c. ok (c ∷ digit_text ih.digits)) (digit_char-plain (suc n % 10) (omega arith));
      small = (omega arith, ih.small);
      value = omega (arith, ih.value);
      few = omega (arith, ih.few);
    }

memcpy-all :
    (src old : List ℕ)
    → length src ≤ length old
    → memcpy old src (length src) ≡ ok (src ++ drop (length src) old)
unfolding memcpy
memcpy-all [] old h = refl
memcpy-all (c ∷ src) [] h = absurd (omega arith)
memcpy-all (c ∷ src) (x ∷ old) h = rw (memcpy-all src old (omega arith)) refl

-- the copy of the characters and the reversal
finish_text :
    (fuel : ℕ) (text str : List ℕ)
    → 0 < length text
    → length text + 1 ≤ length str
    → length text < fuel
    → (memcpy str (text ++ 0 ∷ []) (length text + 1) >>= λ written.
        reverse_loop fuel 0 (length text - 1) written)
      ≡ ok (reverse text ++ 0 ∷ drop (length text + 1) str)
finish_text fuel text str some_text fits m =
    let n : length (text ++ 0 ∷ []) ≡ length text + 1 = length-append text (0 ∷ []) in
    let copied : memcpy str (text ++ 0 ∷ []) (length text + 1)
        ≡ ok (text ++ 0 ∷ drop (length text + 1) str) =
      subst (λ k. memcpy str (text ++ 0 ∷ []) k ≡ ok (text ++ 0 ∷ drop k str)) n
        (memcpy-all (text ++ 0 ∷ []) str (omega arith)
          ∙ ap ok (append_assoc text (0 ∷ []) (drop (length (text ++ 0 ∷ [])) str))) in
    ap (λ (r : Run (List ℕ)). r >>= λ written. reverse_loop fuel 0 (length text - 1) written) copied
    ∙ reverse_loop_lem fuel 0 (length text - 1) [] text (0 ∷ drop (length text + 1) str) refl
        (omega arith) m

some_digit : (ds : List ℕ) {n : ℕ} → low_value ds ≡ n → 0 < n → 0 < length ds
some_digit [] e h = absurd (omega arith)
some_digit (d ∷ ds) e h = omega arith

abbrev sign_of : Bool → Sign
sign_of true = minus
sign_of false = unsigned

-- What `itoa` leaves of a number that is not 0: the sign, the digits from the highest, and a NUL.
itoa_nonzero-text :
    (fuel n : ℕ) (negative : Bool) (str : List ℕ) (w : Digits fuel n 10)
    → 0 < n
    → n < 2 ^ 31
    → 12 ≤ length str
    → 12 ≤ fuel
    → (rest : List ℕ) × (itoa_nonzero fuel negative n 10 str
        ≡ ok (sign_text (sign_of negative) ++ (digit_text (reverse w.digits) ++ 0 ∷ rest)))
unfolding itoa_nonzero
itoa_nonzero-text fuel n true str w some_number small room m =
    let text = digit_text w.digits ++ 45 ∷ [] in
    let size : length text ≡ length w.digits + 1 =
      length-append (digit_text w.digits) (45 ∷ [])
      ∙ ap (λ k. k + 1) (length-digit_text w.digits) in
    let fine : (n == 2 ^ 31) ≡ false = ground arith in
    let turned : reverse text ≡ 45 ∷ digit_text (reverse w.digits) =
      reverse-append (digit_text w.digits) (45 ∷ [])
      ∙ ap (λ l. 45 ∷ l) (sym (digit_text-reverse w.digits)) in
    (
      drop (length text + 1) str,
      rw (fine, w.written)
          (finish_text fuel text str (omega (arith, size)) (omega (arith, size, w.few))
              (omega (arith, size, w.few))
            ∙ ap (λ l. ok (l ++ 0 ∷ drop (length text + 1) str)) turned),
    )
itoa_nonzero-text fuel n false str w some_number small room m =
    let text = digit_text w.digits in
    let plain : text ++ [] ≡ text = append-nil text in
    let size : length text ≡ length w.digits = length-digit_text w.digits in
    let turned : reverse text ≡ digit_text (reverse w.digits) = sym (digit_text-reverse w.digits) in
    (
      drop (length text + 1) str,
      rw (w.written, plain)
          (finish_text fuel text str (omega (arith, size, some_digit w.digits w.value some_number))
              (omega (arith, size, w.few)) (omega (arith, size, w.few))
            ∙ ap (λ l. ok (l ++ 0 ∷ drop (length text + 1) str)) turned),
    )

-- `atoi` of that text
read_back :
    (g : Sign) (ds rest : List ℕ)
    → AreDigits ds
    → decimal 0 ds < 2 ^ 31
    → atoi (sign_text g ++ (digit_text ds ++ 0 ∷ rest)) ≡ ok (with_sign g (decimal 0 ds))
read_back g ds rest h small =
    atoi_lem [] g ds 0 rest tt h nul-IsEnd ∙ rw (lt→ltb (decimal 0 ds) (2 ^ 31) small) refl

zero_back : (rest : List ℕ) → atoi (48 ∷ 0 ∷ rest) ≡ ok (pos 0)
unfolding decimal
zero_back rest = read_back unsigned (0 ∷ []) rest (omega arith, tt) (omega arith)

nonzero_back :
    (fuel n : ℕ) (negative : Bool) (str : List ℕ)
    → 0 < n
    → n < 2 ^ 31
    → 12 ≤ length str
    → 12 ≤ fuel
    → Returns
        (λ str'. atoi str' ≡ ok (with_sign (sign_of negative) n))
        (itoa_nonzero fuel negative n 10 str)
nonzero_back fuel n negative str low small room m =
    let w = chars_of fuel n 10 (omega arith) (omega arith) in
    let (rest, e) = itoa_nonzero-text fuel n negative str w low small room m in
    let v : decimal 0 (reverse w.digits) ≡ n = decimal-reverse w.digits ∙ w.value in
    rw e (
      returns (
        read_back (sign_of negative) (reverse w.digits) rest (AreDigits-reverse w.digits w.small)
          (omega arith)
        ∙ ap (λ k. ok (with_sign (sign_of negative) k)) v))

-- The numbers of type `int` but for -2 ^ 31.
abbrev pub IsInt : ℤ → Type 0
IsInt (pos n) = n < 2 ^ 31
IsInt (negsuc n) = suc n < 2 ^ 31

-- `itoa` in base 10 of a number of type `int`, -2 ^ 31 left out, into an array of 12 bytes or more
-- and with fuel for 12 rounds, returns, and `atoi` of the array gives the number back.
pub atoi-itoa :
    (fuel : ℕ) (num : ℤ) (str : List ℕ)
    → IsInt num
    → 12 ≤ length str
    → 12 ≤ fuel
    → Returns (λ str'. atoi str' ≡ ok num) (itoa fuel num 10 str)
unfolding itoa
atoi-itoa fuel (pos zero) str is room m =
    rw (memcpy-all (48 ∷ 0 ∷ []) str (omega arith)) (returns (zero_back (drop 2 str)))
atoi-itoa fuel (pos (suc n)) str is room m =
    nonzero_back fuel (suc n) false str (omega arith) is room m
atoi-itoa fuel (negsuc n) str is room m = nonzero_back fuel (suc n) true str (omega arith) is room m
