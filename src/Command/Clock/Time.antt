-- ===== src/Command/Clock/Time.antt =====
-- get_time and set_time of user/commhand.c: what is shown and what is set.
use mpx.Base.{
  ℕ, ◌+◌, ◌-◌, ◌*◌, ◌/◌, ◌%◌, ◌<◌, ◌≤◌, ◌≡◌, refl, ◌∙◌, ap, true, false, Bool-cases, inl, inr, ◌||◌,
  some, List, [], ◌∷◌, ◌++◌, arith, ltb, ◌==◌, if◌then◌else◌, length, take-length, take, drop,
}
use mpx.Base.Int.{pos}
use mpx.Base.Run.{Run, ok, Returns, returns}
use mpx.Base.Text.{codes}
use mpx.Heap.{Heap}
use mpx.SysMem.{HeapFunctions, sys_alloc_mem}
use mpx.CString.{atoi}
use mpx.CString.Laws.{NoNul, strlen_lem}
use mpx.CString.Number.{nul-IsEnd, unsigned, decimal, atoi_lem}
use mpx.Serial.{outb}
use mpx.Serial.Poll.{Key, typed, text, length-text, serial_poll_line}
use mpx.Command.{Session, say, request}
use mpx.Command.Clock.{
  rtc_read, rtc_write, send, from_bcd, decimal_text, eastern, time_text, get_time, at, pair,
  write_time, set_time,
}
use mpx.Command.Clock.Date.{register, atoi-two, inside}
use mpx.Command.Line.{
  IsSolidChar, IsSolidChar-digit, IsSolid, solid_end, solid_cons, solid-ArePlain, read_line,
}

-- two decimal digits in one byte, in BCD
abbrev pub bcd : ℕ → ℕ → ℕ
bcd a b = a * 16 + b

from_bcd-bcd : (a b : ℕ) → a < 10 → b < 10 → from_bcd (bcd a b % 256) ≡ a * 10 + b
from_bcd-bcd a b h k = omega arith

decimal_text-two :
    (a b : ℕ) → a < 10 → b < 10 → decimal_text (a * 10 + b) ≡ (48 + a) ∷ (48 + b) ∷ []
decimal_text-two a b h k =
    let high : (48 + (a * 10 + b) / 10) % 256 ≡ 48 + a = omega arith in
    let low : 48 + (a * 10 + b) % 10 ≡ 48 + b = omega arith in rw (high, low) refl

-- what get_time makes of the hour: the digits of the hour four hours before, or a byte 73 ('I') and
-- the digit of the hour and 2
abbrev pub hour_shown : ℕ → List ℕ
hour_shown hour =
    if ltb hour 4
    then 73 ∷ (50 + hour) ∷ []
    else (48 + (hour - 4) / 10) ∷ (48 + (hour - 4) % 10) ∷ []

decimal_text-eastern : (hour : ℕ) → hour < 24 → decimal_text (eastern hour) ≡ hour_shown hour
decimal_text-eastern hour h = elim (Bool-cases (ltb hour 4)) [
  | inl early ↦
      let high : (48 + (hour + 256 - 4) % 256 / 10) % 256 ≡ 73 = ground arith in
      let low : 48 + (hour + 256 - 4) % 256 % 10 ≡ 50 + hour = ground arith in
      rw (early, high, low) refl
  | inr late ↦
      let high : (48 + (hour + 256 - 4) % 256 / 10) % 256 ≡ 48 + (hour - 4) / 10 = ground arith in
      let low : 48 + (hour + 256 - 4) % 256 % 10 ≡ 48 + (hour - 4) % 10 = ground arith in
      rw (late, high, low) refl
]

-- the text that get_time shows, of an hour's characters and the digits of minutes and seconds
abbrev pub clock_text : List ℕ → (c d e f : ℕ) → List ℕ
clock_text hour c d e f = 10 ∷ hour ++ 58 ∷ (48 + c) ∷ (48 + d) ∷ 58 ∷ (48 + e) ∷ (48 + f) ∷ 10 ∷ []

same_text :
    {x x' y y' z z' : List ℕ}
    → x ≡ x'
    → y ≡ y'
    → z ≡ z'
    → 10 ∷ x ++ 58 ∷ y ++ 58 ∷ z ++ 10 ∷ 0 ∷ [] ≡ 10 ∷ x' ++ 58 ∷ y' ++ 58 ∷ z' ++ 10 ∷ 0 ∷ []
same_text e f g = cc

clock_text-NoNul : (hour c d e f : ℕ) → NoNul (clock_text (hour_shown hour) c d e f)
clock_text-NoNul hour c d e f = elim (Bool-cases (ltb hour 4)) [
  | inl early ↦ rw early (ground arith)
  | inr late ↦ rw late (ground arith)
]

-- the array that get_time fills
time_text-digits :
    (a b c d e f : ℕ)
    → a < 10
    → b < 10
    → a * 10 + b < 24
    → (c < 10) × (d < 10) × (e < 10) × (f < 10)
    → time_text
        (eastern (from_bcd (bcd a b % 256)))
        (from_bcd (bcd c d % 256))
        (from_bcd (bcd e f % 256))
      ≡ clock_text (hour_shown (a * 10 + b)) c d e f ++ 0 ∷ []
time_text-digits a b c d e f ha hb small (hc, hd, he, hf) =
    let two : (x y : ℕ)
        → x < 10
        → y < 10
        → decimal_text (from_bcd (bcd x y % 256)) ≡ (48 + x) ∷ (48 + y) ∷ [] =
      λ x y h k. ap decimal_text (from_bcd-bcd x y h k) ∙ decimal_text-two x y h k in
    same_text
      (ap (λ n. decimal_text (eastern n)) (from_bcd-bcd a b ha hb)
        ∙ decimal_text-eastern (a * 10 + b) small)
      (two c d hc hd) (two e f he hf)
    ∙ elim (Bool-cases (ltb (a * 10 + b) 4)) [ inl early ↦ rw early refl | inr late ↦ rw late refl ]

-- `get_time`, where the clock's registers 4, 2 and 0 hold an hour below 24, minutes and seconds, of
-- two decimal digits each, in BCD and where memory for the text is given, returns (the WRITE request
-- coming back): it sends and returns the text of the time, in which
-- minutes and seconds have their digits, and the hour those of the hour minus 4 if it is 4 or
-- more; of an hour below 4 it shows the character 'I' and the digit of the hour plus 2.
pub get_time-shown :
    (kmalloc : ℕ → Heap → Run (ℕ × Heap)) (functions : HeapFunctions) (a b c d e f p : ℕ) (h : Heap)
    (s : Session)
    → a < 10
    → b < 10
    → a * 10 + b < 24
    → (c < 10) × (d < 10) × (e < 10) × (f < 10)
    → s.clock 4 ≡ bcd a b
    → s.clock 2 ≡ bcd c d
    → s.clock 0 ≡ bcd e f
    → sys_alloc_mem kmalloc functions 12 s.serial.heap ≡ ok (p, h)
    → 0 < p
    → Returns
        (λ (shown, s').
          (shown ≡ some (clock_text (hour_shown (a * 10 + b)) c d e f ++ 0 ∷ []))
          × (s'.console ≡ s.console ++ clock_text (hour_shown (a * 10 + b)) c d e f ∷ []))
        (get_time kmalloc functions s)
unfolding get_time rtc_read outb send request
get_time-shown kmalloc functions a b c d e f p h s ha hb small digits e₁ e₂ e₃ gives low =
    let here : (p == 0) ≡ false = ground arith in
    rw
      (
        e₁,
        e₂,
        e₃,
        gives,
        here,
        time_text-digits a b c d e f ha hb small digits,
        strlen_lem (clock_text (hour_shown (a * 10 + b)) c d e f) []
            (clock_text-NoNul (a * 10 + b) c d e f),
      )
      (returns (
        refl,
        ap (λ (l : List ℕ). s.console ++ l ∷ [])
            (take-length (clock_text (hour_shown (a * 10 + b)) c d e f) (0 ∷ [])),
      ))

-- "HH:MM:SS"
abbrev pub time_word : (a b c d e f : ℕ) → List ℕ
time_word a b c d e f =
    (48 + a) ∷ (48 + b) ∷ 58 ∷ (48 + c) ∷ (48 + d) ∷ 58 ∷ (48 + e) ∷ (48 + f) ∷ []

atoi-one : (a : ℕ) (rest : List ℕ) → a < 10 → atoi ((48 + a) ∷ 0 ∷ rest) ≡ ok (pos a)
unfolding decimal
atoi-one a rest h = atoi_lem [] unsigned (a ∷ []) 0 rest tt (h, tt) nul-IsEnd ∙ ground arith

-- the digits of a time that set_time accepts, as it reads them
pub record IsTime (a b c d e f : ℕ) : Type 0 where
  pub digits : (a < 10) × (b < 10) × (c < 10) × (d < 10) × (e < 10) × (f < 10)
  pub hour : a * 10 + b ≤ 23
  pub minutes : c * 10 + f ≤ 59

write_time-digits :
    (a b c d e f : ℕ) (junk rest : List ℕ) (s : Session)
    → IsTime a b c d e f
    → write_time (0 ∷ junk) (time_word a b c d e f ++ rest) s
      ≡ ok (
          say "\nTime set successfully. \n"
            (rtc_write 0 e (rtc_write 2 (c * 10 + f) (rtc_write 4 (a * 10 + b) s))))
unfolding write_time pair at
write_time-digits a b c d e f junk rest s is =
    let (ha, hb, hc, hd, he, hf) = is.digits in
    rw
      (
        atoi-two a b ha hb,
        atoi-two c f hc hf,
        atoi-one e junk he,
        inside 0 23 (a * 10 + b) (omega arith) is.hour,
        inside 0 59 (c * 10 + f) (omega arith) is.minutes,
        inside 0 59 e (omega arith) (omega arith),
      )
      refl

time_word-IsSolid : (a b c d e f : ℕ) → IsTime a b c d e f → IsSolid (time_word a b c d e f)
time_word-IsSolid a b c d e f is =
    let (ha, hb, hc, hd, he, hf) = is.digits in
    let digit : (n : ℕ) → n < 11 → IsSolidChar (48 + n) =
      λ n h. IsSolidChar-digit (48 + n) (omega arith) (omega arith) in
    solid_cons (digit a (omega arith)) (
      solid_cons (digit b (omega arith)) (
        solid_cons (digit 10 (omega arith)) (
          solid_cons (digit c (omega arith)) (
            solid_cons (digit d (omega arith)) (
              solid_cons (digit 10 (omega arith)) (
                solid_cons (digit e (omega arith))
                  (solid_cons (digit f (omega arith)) solid_end)))))))

-- `set_time`, when a time HH:MM:SS is typed and ended by new-line or return, returns, where the
-- byte behind the first of `seconds` is NUL and the numbers that it reads are in range: the
-- clock's hour register holds the hour, the minutes register the first digit of the minutes
-- followed by the last digit of the seconds, and the seconds register the first digit of the
-- seconds, all of them in binary.
pub set_time-registers :
    (a b c d e f : ℕ) (ks : List Key) (last : Key) (junk old inputs : List ℕ) (s : Session)
    → IsTime a b c d e f
    → text ks ≡ time_word a b c d e f
    → (last.char == 10 || last.char == 13) ≡ true
    → length old ≡ 20
    → s.serial.inputs ≡ typed ks (typed (last ∷ []) inputs)
    → Returns
        (λ s'.
          (register 4 s'.serial.outputs ≡ a * 10 + b)
          × (register 2 s'.serial.outputs ≡ c * 10 + f)
          × (register 0 s'.serial.outputs ≡ e))
        (set_time (0 ∷ junk) old s)
unfolding set_time request say rtc_write outb
set_time-registers a b c d e f ks last junk old inputs s is same enter size reads =
    let few : length ks ≡ 8 = omega (arith, length-text ks, ap length same) in
    let long : ltb (length ks + 1) 5 ≡ false = ground (arith, few) in
    let (ha, hb, hc, hd, he, hf) = is.digits in
    let plain = solid-ArePlain ks (time_word-IsSolid a b c d e f is) same in
    let shown = request (take 23 (codes "\nEnter time (HH:MM:SS): ")) s in
    let asked = record shown { serial = read_line ks last inputs shown.serial } in
    rw
      (
        serial_poll_line ks last 20 old inputs shown.serial plain enter (omega arith) (omega arith)
            reads,
        long,
        same,
        write_time-digits a b c d e f junk (last.char ∷ 0 ∷ drop (length ks + 2) old) asked is,
      )
      (returns (omega arith, omega arith, omega arith))
