-- ===== src/CString/Number.antt =====
-- `atoi` of lib/stdlib.c on decimal text.
use mpx.Base.{
  ℕ, zero, suc, ◌+◌, ◌*◌, ◌^◌, ◌≤◌, ◌<◌, ◌≡◌, refl, inl, inr, ltb→lt, Bool, true, false, ◌&&◌, ◌||◌,
  List, [], ◌∷◌, ◌++◌, arith, ltb, leb, ◌==◌, if◌then◌else◌, Bool-cases,
}
use mpx.Base.Int.{ℤ, pos, negsuc}
use mpx.Base.Run.{ok, fault, ◌>>=◌}
use mpx.CString.{isspace, digits_loop, skip_space, read_sign, negate, atoi}

-- the number that decimal digits stand for, read behind `acc`
unfoldable pub decimal : ℕ → List ℕ → ℕ
decimal acc [] = acc
decimal acc (d ∷ ds) = decimal (acc * 10 + d) ds

abbrev pub AreDigits : List ℕ → Type 0
AreDigits [] = Unit {0}
AreDigits (d ∷ ds) = (d < 10) × AreDigits ds

abbrev pub AreSpaces : List ℕ → Type 0
AreSpaces [] = Unit {0}
AreSpaces (c ∷ s) = (isspace c ≡ true) × AreSpaces s

abbrev pub digit_text : List ℕ → List ℕ
digit_text [] = []
digit_text (d ∷ ds) = (48 + d) ∷ digit_text ds

pub data Sign : Type 0 where
  unsigned plus minus : Sign

abbrev pub sign_text : Sign → List ℕ
sign_text unsigned = []
sign_text plus = 43 ∷ []
sign_text minus = 45 ∷ []

abbrev pub with_sign : Sign → ℕ → ℤ
with_sign minus zero = pos 0
with_sign minus (suc n) = negsuc n
with_sign unsigned n = pos n
with_sign plus n = pos n

-- a byte that ends the number: no digit, no white space, no sign
pub record IsEnd (c : ℕ) : Type 0 where
  pub no_digit : (leb 48 c && leb c 57) ≡ false
  pub no_space : isspace c ≡ false
  pub no_sign : (c == 45 || c == 43) ≡ false

-- NUL ends a number.
pub nul-IsEnd : IsEnd 0
unfolding isspace
nul-IsEnd = record { no_digit = refl; no_space = refl; no_sign = refl }

decimal-ge : (acc : ℕ) (ds : List ℕ) → acc ≤ decimal acc ds
unfolding decimal
decimal-ge acc [] = omega arith
decimal-ge acc (d ∷ ds) = omega (arith, decimal-ge (acc * 10 + d) ds)

digits_loop_lem :
    (acc : ℕ) (ds : List ℕ) (c : ℕ) (rest : List ℕ)
    → acc < 2 ^ 31
    → AreDigits ds
    → IsEnd c
    → digits_loop acc (digit_text ds ++ (c ∷ rest))
      ≡ (if ltb (decimal acc ds) (2 ^ 31) then ok (decimal acc ds) else fault)
unfolding digits_loop decimal
digits_loop_lem acc [] c rest h k e = ground (arith, e.no_digit)
digits_loop_lem acc (d ∷ ds) c rest h k e = elim (Bool-cases (ltb (acc * 10 + d) (2 ^ 31))) [
  | inl small ↦ ground (arith, digits_loop_lem (acc * 10 + d) ds c rest (ltb→lt _ _ small) k.1 e)
  | inr large ↦ ground (arith, decimal-ge (acc * 10 + d) ds)
]

skip_space_lem : (sp s : List ℕ) → AreSpaces sp → skip_space (sp ++ s) ≡ skip_space s
unfolding skip_space
skip_space_lem [] s h = refl
skip_space_lem (c ∷ sp) s h = rw (h.0) (skip_space_lem sp s h.1)

read_plain :
    (x : ℕ) (s : List ℕ)
    → isspace x ≡ false
    → (x == 45 || x == 43) ≡ false
    → (skip_space (x ∷ s) ≡ ok (x ∷ s)) × (read_sign (x ∷ s) ≡ ok (false, x ∷ s))
unfolding skip_space read_sign
read_plain x s h k = (rw h, rw k)

digit_plain :
    (d : ℕ) → d < 10 → (isspace (48 + d) ≡ false) × ((48 + d == 45 || 48 + d == 43) ≡ false)
unfolding isspace
digit_plain d h = (ground arith, ground arith)

by_size :
    (g : Sign) (n : ℕ) (t : Bool)
    → ((if t then ok n else fault) >>= λ res. ok (elim g [ minus ↦ negate res | _ ↦ pos res ]))
      ≡ (if t then ok (with_sign g n) else fault)
unfolding negate
by_size minus zero true = refl
by_size minus (suc n) true = refl
by_size plus n true = refl
by_size unsigned n true = refl
by_size g n false = refl

-- The last two steps of `atoi`, with the sign read.
after_sign :
    (g : Sign) (ds : List ℕ) (c : ℕ) (rest : List ℕ)
    → AreDigits ds
    → IsEnd c
    → (digits_loop 0 (digit_text ds ++ (c ∷ rest)) >>= λ res.
        ok (elim g [ minus ↦ negate res | _ ↦ pos res ]))
      ≡ (if ltb (decimal 0 ds) (2 ^ 31) then ok (with_sign g (decimal 0 ds)) else fault)
after_sign g ds c rest k e =
    rw (digits_loop_lem 0 ds c rest (omega arith) k e)
      (by_size g (decimal 0 ds) (ltb (decimal 0 ds) (2 ^ 31)))

-- `atoi` reads white space, a sign and decimal digits up to a byte that ends the number. Its result
-- is the number with its sign, if the number is below 2 ^ 31; else its `int` overflows.
pub atoi_lem :
    (sp : List ℕ) (g : Sign) (ds : List ℕ) (c : ℕ) (rest : List ℕ)
    → AreSpaces sp
    → AreDigits ds
    → IsEnd c
    → atoi (sp ++ (sign_text g ++ (digit_text ds ++ (c ∷ rest))))
      ≡ (if ltb (decimal 0 ds) (2 ^ 31) then ok (with_sign g (decimal 0 ds)) else fault)
unfolding atoi
atoi_lem sp minus ds c rest h k e = rw (skip_space_lem sp _ h) (after_sign minus ds c rest k e)
atoi_lem sp plus ds c rest h k e = rw (skip_space_lem sp _ h) (after_sign plus ds c rest k e)
atoi_lem sp unsigned [] c rest h k e =
    let plain = read_plain c rest e.no_space e.no_sign in
    rw (skip_space_lem sp _ h, plain.0, plain.1) (after_sign unsigned [] c rest k e)
atoi_lem sp unsigned (d ∷ ds) c rest h k e =
    let digit = digit_plain d k.0 in
    let plain = read_plain (48 + d) (digit_text ds ++ (c ∷ rest)) digit.0 digit.1 in
    rw (skip_space_lem sp _ h, plain.0, plain.1) (after_sign unsigned (d ∷ ds) c rest k e)
