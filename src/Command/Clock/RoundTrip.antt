-- ===== src/Command/Clock/RoundTrip.antt =====
-- set_date of user/commhand.c, and get_date after it.
use mpx.Base.{
  ℕ, ◌+◌, ◌*◌, ◌/◌, ◌%◌, ◌<◌, ◌≡◌, refl, ◌∙◌, ap, true, ◌||◌, List, [], ◌∷◌, ◌++◌, arith, ◌==◌,
  length, drop,
}
use mpx.Base.Run.{◌>>=◌, Returns, Returns-mono}
use mpx.Base.Text.{codes}
use mpx.Serial.{outb}
use mpx.Serial.Poll.{Key, typed, text, length-text}
use mpx.Command.{Session, say, request}
use mpx.Command.Clock.{rtc_write, bcd_text, get_date, to_bcd, set_date}
use mpx.Command.Line.{read_line}
use mpx.Command.Clock.Date.{
  date_word, IsDate, write_date-valid, date_text, get_date-text, date_word-IsSolid,
  set_date-write_date, rtc_write-clock,
}

bcd_text-to_bcd :
    (a b n : ℕ)
    → a < 10
    → b < 10
    → n ≡ to_bcd (a * 10 + b) % 256
    → bcd_text (n % 256) ≡ (48 + a) ∷ (48 + b) ∷ []
bcd_text-to_bcd a b n h k e =
    let high : n % 256 / 16 % 16 + 48 ≡ 48 + a = omega (arith, e) in
    let low : n % 256 % 16 + 48 ≡ 48 + b = omega (arith, e) in rw (high, low) refl

same_text :
    {x x' y y' z z' : List ℕ}
    → x ≡ x'
    → y ≡ y'
    → z ≡ z'
    → 10 ∷ x ++ 47 ∷ y ++ 47 ∷ z ++ 10 ∷ [] ≡ 10 ∷ x' ++ 47 ∷ y' ++ 47 ∷ z' ++ 10 ∷ []
same_text e f g = cc

-- the session once the date is written
abbrev dated : (a b c d e f : ℕ) → Session → Session
dated a b c d e f s = say "\nDate set successfully. \n" (
    rtc_write 9 (to_bcd (e * 10 + f))
      (rtc_write 8 (to_bcd (c * 10 + d)) (rtc_write 7 (to_bcd (a * 10 + b)) s)))

dated-console :
    (a b c d e f : ℕ) (s : Session)
    → (dated a b c d e f s).console ≡ s.console ++ codes "\nDate set successfully. \n" ∷ []
unfolding say request rtc_write outb
dated-console a b c d e f s = refl

dated-clock :
    (a b c d e f : ℕ) (s : Session)
    → (dated a b c d e f s).clock
      ≡ (rtc_write 9
          (to_bcd (e * 10 + f))
          (rtc_write 8 (to_bcd (c * 10 + d)) (rtc_write 7 (to_bcd (a * 10 + b)) s))).clock
unfolding say request
dated-clock a b c d e f s = refl

get_date-dated :
    (a b c d e f : ℕ) (s : Session)
    → IsDate a b c d e f
    → Returns
        (λ s'.
          s'.console
          ≡ (s.console ++ codes "\nDate set successfully. \n" ∷ [])
            ++ (10 ∷ date_word a b c d e f ++ 10 ∷ []) ∷ [])
        (get_date (dated a b c d e f s))
get_date-dated a b c d e f s is =
    let (da, db, dc, dd, de, df) = is.digits in
    let clock = (dated a b c d e f s).clock in
    let (r₇, r₈, r₉) =
      rtc_write-clock (to_bcd (a * 10 + b)) (to_bcd (c * 10 + d)) (to_bcd (e * 10 + f)) s in
    let same = dated-clock a b c d e f s in
    let at : (r : ℕ)
        → clock r
          ≡ (rtc_write 9 (to_bcd (e * 10 + f))
                (rtc_write 8 (to_bcd (c * 10 + d)) (rtc_write 7 (to_bcd (a * 10 + b)) s))).clock
              r =
      λ r. ap (λ (g : ℕ → ℕ). g r) same in
    Returns-mono (get_date-text (dated a b c d e f s)) λ s' shown.
      shown
      ∙ ap
          (λ (l : List (List ℕ)).
            l ++ date_text (clock 7 % 256) (clock 8 % 256) (clock 9 % 256) ∷ [])
          (dated-console a b c d e f s)
      ∙ ap (λ (l : List ℕ). (s.console ++ codes "\nDate set successfully. \n" ∷ []) ++ l ∷ [])
          (same_text (bcd_text-to_bcd a b (clock 7) da db (at 7 ∙ r₇))
            (bcd_text-to_bcd c d (clock 8) dc dd (at 8 ∙ r₈))
            (bcd_text-to_bcd e f (clock 9) de df (at 9 ∙ r₉)))

-- `set_date`, when a date DD/MM/YY is typed (the digits of a day from 1 to 31, a month from 1 to 12
-- and any year) and ended by new-line or return, returns, and `get_date` after it returns, where the
-- WRITE requests come back, no time passes and nothing else writes to the clock: the console then has
-- behind what it had the prompt, the message of success, and the date as it was typed between two
-- new-lines.
pub get_date-set_date :
    (a b c d e f : ℕ) (ks : List Key) (last : Key) (old inputs : List ℕ) (s : Session)
    → IsDate a b c d e f
    → text ks ≡ date_word a b c d e f
    → (last.char == 10 || last.char == 13) ≡ true
    → length old ≡ 12
    → s.serial.inputs ≡ typed ks (typed (last ∷ []) inputs)
    → Returns
        (λ s'.
          s'.console
          ≡ ((s.console ++ codes "\nEnter date (DD/MM/YY): " ∷ [])
              ++ codes "\nDate set successfully. \n" ∷ [])
            ++ (10 ∷ date_word a b c d e f ++ 10 ∷ []) ∷ [])
        (set_date old s >>= get_date)
unfolding say request
get_date-set_date a b c d e f ks last old inputs s is same enter size reads =
    let few : length ks ≡ 8 = omega (arith, length-text ks, ap length same) in
    let s₁ = record (say "\nEnter date (DD/MM/YY): " s) {
      serial = read_line ks last inputs (say "\nEnter date (DD/MM/YY): " s).serial;
    } in
    rw
      (
        set_date-write_date ks last old inputs s (48 + a)
            ((48 + b) ∷ 47 ∷ (48 + c) ∷ (48 + d) ∷ 47 ∷ (48 + e) ∷ (48 + f) ∷ []) same
            (date_word-IsSolid a b c d e f is) enter (omega (arith, few)) size reads,
        write_date-valid a b c d e f (0 ∷ drop (length ks + 2) old) s₁ is,
      )
      (get_date-dated a b c d e f s₁ is)
