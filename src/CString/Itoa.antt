-- ===== src/CString/Itoa.antt =====
-- `itoa` of lib/stdlib.c. The base is a positive `int`; an array too short is a fault.
pub mod Reverse
pub mod RoundTrip
use mpx.Base.{
  ℕ, zero, suc, ◌+◌, ◌-◌, ◌/◌, ◌%◌, ◌^◌, Bool, true, false, not, ◌&&◌, ◌||◌, Option, none, some,
  List, [], ◌∷◌, ◌++◌, ltb, ◌==◌, if◌then◌else◌, length, get_elem?, set,
}
use mpx.Base.Int.{ℤ, pos, negsuc}
use mpx.Base.Run.{Run, ok, fault, out_of_fuel, ◌>>=◌}
use mpx.CString.{memcpy}

-- `(rem > 9) ? (rem - 10) + 'a' : rem + '0'` as a byte; the remainder of a negative number is -r.
unfoldable pub digit_char : (negative : Bool) → ℕ → ℕ
digit_char negative r =
    if negative then (304 - r) % 256 else if ltb 9 r then (r - 10 + 97) % 256 else r + 48

-- `while (num != 0)` on the number's magnitude: the characters in the order of writing.
unfoldable pub digit_chars : ℕ → (negative : Bool) → (num base : ℕ) → Run (List ℕ)
unfolding digit_char
digit_chars zero negative num base = out_of_fuel
digit_chars (suc fuel) negative num base =
    let rest = digit_chars fuel negative (num / base) base in
    if num == 0 then ok [] else (rest >>= λ chars. ok (digit_char negative (num % base) ∷ chars))

-- One round of the reversal: the swap of two bytes, `none` standing for one beyond the array.
unfoldable pub exchange : (start end : ℕ) → Option ℕ → Option ℕ → List ℕ → Run (List ℕ)
exchange start end (some a) (some b) str = ok (set (set str start b) end a)
exchange start end (some a) none str = fault
exchange start end none _ str = fault

unfoldable pub swap : (start end : ℕ) → List ℕ → Run (List ℕ)
unfolding exchange
swap start end str = exchange start end (get_elem? str start) (get_elem? str end) str

unfoldable pub reverse_loop : ℕ → (start end : ℕ) → List ℕ → Run (List ℕ)
unfolding swap
reverse_loop zero start end str = out_of_fuel
reverse_loop (suc fuel) start end str =
    if ltb start end
    then (swap start end str >>= λ str'. reverse_loop fuel (start + 1) (end - 1) str')
    else ok str

-- `itoa` of a number that is not 0, by its sign and its magnitude. The negation of -2 ^ 31 is
-- undefined, here a fault.
unfoldable pub itoa_nonzero : ℕ → (negative : Bool) → (num base : ℕ) → List ℕ → Run (List ℕ)
unfolding digit_chars reverse_loop
itoa_nonzero fuel negative num base str =
    let is_negative = negative && base == 10 in
    if base == 0 || (is_negative && num == 2 ^ 31)
    then fault
    else (digit_chars fuel (negative && not is_negative) num base >>= λ chars.
        let text = chars ++ (if is_negative then 45 ∷ [] else []) in
        memcpy str (text ++ 0 ∷ []) (length text + 1) >>= λ written.
        reverse_loop fuel 0 (length text - 1) written)

unfoldable pub itoa : ℕ → ℤ → (base : ℕ) → List ℕ → Run (List ℕ)
unfolding itoa_nonzero
itoa fuel (pos zero) base str = memcpy str (48 ∷ 0 ∷ []) 2
itoa fuel (pos (suc n)) base str = itoa_nonzero fuel false (suc n) base str
itoa fuel (negsuc n) base str = itoa_nonzero fuel true (suc n) base str
