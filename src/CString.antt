-- ===== src/CString.antt =====
-- The C string functions of lib/string.c, lib/ctype.c, lib/core.c (memcpy, memset), and atoi of
-- lib/stdlib.c. A pointer into an array is the list of the bytes from there to the array's end, so
-- an access beyond the array is a fault; a byte is a number below 256.
pub mod Laws
pub mod Strtok
pub mod Number
pub mod Itoa
use mpx.Base.{
  ℕ, zero, suc, ◌+◌, ◌-◌, ◌*◌, ◌%◌, ◌^◌, Bool, true, false, not, ◌&&◌, ◌||◌, Option, none, some,
  List, [], ◌∷◌, ltb, leb, ◌==◌, if◌then◌else◌, set, drop,
}
use mpx.Base.Int.{ℤ, pos, negsuc, sub_ℕ}
use mpx.Base.Run.{Run, ok, fault, ◌>>=◌}

-- `*p`
abbrev pub read : List ℕ → Run ℕ
read [] = fault
read (c ∷ s) = ok c

-- `memcpy` between arrays that do not overlap: the bytes at `s1` afterwards
unfoldable pub memcpy : (s1 s2 : List ℕ) → ℕ → Run (List ℕ)
memcpy s1 s2 zero = ok s1
memcpy (x ∷ s1) (y ∷ s2) (suc n) = memcpy s1 s2 n >>= λ rest. ok (y ∷ rest)
memcpy _ _ (suc n) = fault

unfoldable pub memset : List ℕ → ℕ → ℕ → Run (List ℕ)
memset s c zero = ok s
memset [] c (suc n) = fault
memset (x ∷ s) c (suc n) = memset s c n >>= λ rest. ok ((c % 256) ∷ rest)

unfoldable pub strcpy : (dest src : List ℕ) → Run (List ℕ)
strcpy dest [] = fault
strcpy [] (c ∷ src) = fault
strcpy (d ∷ dest) (c ∷ src) =
    let rest = strcpy dest src in
    if c == 0 then ok (0 ∷ dest) else (rest >>= λ copied. ok (c ∷ copied))

unfoldable pub strcmp : (s1 s2 : List ℕ) → Run ℤ
strcmp [] s2 = fault
strcmp (c ∷ s1) [] = fault
strcmp (c ∷ s1) (d ∷ s2) =
    let rest = strcmp s1 s2 in if not (c == 0) && c == d then rest else ok (sub_ℕ c d)

unfoldable pub strlen : List ℕ → Run ℕ
strlen [] = fault
strlen (c ∷ s) = let rest = strlen s in if c == 0 then ok 0 else (rest >>= λ n. ok (n + 1))

-- the characters ' ', '\n', '\r', '\f', '\t' and '\v'
unfoldable pub isspace : ℕ → Bool
isspace c = c == 32 || c == 10 || c == 13 || c == 12 || c == 9 || c == 11

-- whether the inner loop of `strtok` meets `c` among the delimiters
unfoldable pub is_delim : List ℕ → ℕ → Bool
is_delim [] c = false
is_delim (d ∷ s2) c = c == d || is_delim s2 c

-- `strtok`'s first loop: `s2` is the delimiters, `p` those not yet compared with the byte at hand,
-- `n` the bytes skipped. Reading `*s1` beyond the array faults, here or at the test that follows.
unfoldable pub skip_delims : (s2 s1 p : List ℕ) → ℕ → Run ℕ
skip_delims s2 [] p n = fault
skip_delims s2 (c ∷ s1) [] n = ok n
skip_delims s2 (c ∷ s1) (d ∷ p) n = elim (c == 0) [
  | true ↦ ok n
  | false ↦ elim (c == d) [
    | true ↦ skip_delims s2 s1 s2 (n + 1)
    | false ↦ skip_delims s2 (c ∷ s1) p n
  ]
]

-- Its second loop: the index of the first delimiter from `tok_tmp` on, if one stands before the end.
unfoldable pub find_delim : (s2 : List ℕ) → List ℕ → ℕ → Run (Option ℕ)
unfolding is_delim
find_delim s2 [] i = fault
find_delim s2 (c ∷ s) i =
    let rest = find_delim s2 s (i + 1) in
    if c == 0 then ok none else if is_delim s2 c then ok (some i) else rest

-- The array that the calls work on, and the static `tok_tmp` (an index into it, or NULL).
pub record Tokens : Type 0 where
  pub bytes : List ℕ
  pub tok_tmp : Option ℕ

unfoldable pub strtok_from : Tokens → List ℕ → ℕ → Run (Option ℕ × Tokens)
unfolding skip_delims find_delim
strtok_from t s2 at = skip_delims s2 (drop at t.bytes) s2 0 >>= λ n.
    read (drop (at + n) t.bytes) >>= λ c.
    if c == 0
    then ok (none, record t { tok_tmp = none })
    else (find_delim s2 (drop (at + n) t.bytes) (at + n) >>= λ end. elim end [
      | none ↦ ok (some (at + n), record t { tok_tmp = none })
      | some i ↦ ok (some (at + n), record { bytes = set t.bytes i 0; tok_tmp = some (i + 1) })
    ])

-- `atoi`'s digit loop. A sum beyond INT_MAX is undefined behaviour in C, here a fault.
unfoldable pub digits_loop : ℕ → List ℕ → Run ℕ
digits_loop res [] = fault
digits_loop res (c ∷ s) =
    let rest = digits_loop (res * 10 + (c - 48)) s in
    if leb 48 c && leb c 57
    then (if ltb (res * 10 + (c - 48)) (2 ^ 31) then rest else fault)
    else ok res

unfoldable pub skip_space : List ℕ → Run (List ℕ)
unfolding isspace
skip_space [] = fault
skip_space (c ∷ s) = let rest = skip_space s in if isspace c then rest else ok (c ∷ s)

-- `if (*s == '-' || *s == '+')`: whether the sign is '-', and what is behind the sign
unfoldable pub read_sign : List ℕ → Run (Bool × List ℕ)
read_sign [] = fault
read_sign (c ∷ s) = if c == 45 || c == 43 then ok (c == 45, s) else ok (false, c ∷ s)

unfoldable pub negate : ℕ → ℤ
negate zero = pos 0
negate (suc n) = negsuc n

unfoldable pub atoi : List ℕ → Run ℤ
unfolding digits_loop skip_space read_sign negate
atoi s = do
  s₁ ← skip_space s
  (minus, s₂) ← read_sign s₁
  res ← digits_loop 0 s₂
  ok (if minus then negate res else pos res)

-- `strtok(s1, s2)`: `s1` is an index into the array, or NULL to go on. The result is the token's index.
unfoldable pub strtok : Tokens → Option ℕ → List ℕ → Run (Option ℕ × Tokens)
unfolding strtok_from
strtok t (some s1) s2 = strtok_from t s2 s1
strtok t none s2 = elim t.tok_tmp [ none ↦ ok (none, t) | some at ↦ strtok_from t s2 at ]
