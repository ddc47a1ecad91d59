-- ===== src/Command/Clock/Date.antt =====
-- What set_date of user/commhand.c leaves in the clock, and get_date's reading of it.
use mpx.Base.{
  ℕ, ◌+◌, ◌*◌, ◌%◌, ◌<◌, ◌≤◌, ◌≡◌, refl, ◌∙◌, true, false, ◌&&◌, ◌||◌, some, none, List, [], ◌∷◌,
  ◌++◌, arith, ◌==◌, if◌then◌else◌, length, drop,
}
use mpx.Base.Int.{pos}
use mpx.Base.Run.{ok, fault, Returns, returns}
use mpx.CString.{atoi}
use mpx.CString.Laws.{NoNul, strlen_lem}
use mpx.CString.Number.{nul-IsEnd, decimal, unsigned, atoi_lem}
use mpx.Serial.{outb}
use mpx.Serial.Poll.{Key, typed, text}
use mpx.Command.{Session, say, request}
use mpx.Command.Clock.{
  rtc_addr_port, rtc_data_port, rtc_read, rtc_write, send, bcd_text, get_date, at, pair, to_bcd,
  out_of_range, write_date, set_date,
}
use mpx.Command.Line.{
  IsSolidChar, IsSolidChar-digit, IsSolid, solid_end, solid_cons, read_line, line_word,
}

-- The value last written to a register, with the port writes the newest first.
abbrev pub register : ℕ → List (ℕ × ℕ) → ℕ
register r [] = 0
register r (w ∷ []) = 0
register r ((p, v) ∷ (q, a) ∷ out) =
    let older = register r ((q, a) ∷ out) in
    if p == rtc_data_port && q == rtc_addr_port && a == r then v else older

-- "DD/MM/YY"
abbrev pub date_word : (a b c d e f : ℕ) → List ℕ
date_word a b c d e f =
    (48 + a) ∷ (48 + b) ∷ 47 ∷ (48 + c) ∷ (48 + d) ∷ 47 ∷ (48 + e) ∷ (48 + f) ∷ []

pub atoi-two :
    (a b : ℕ) → a < 10 → b < 10 → atoi ((48 + a) ∷ (48 + b) ∷ 0 ∷ []) ≡ ok (pos (a * 10 + b))
unfolding decimal
atoi-two a b h k = atoi_lem [] unsigned (a ∷ b ∷ []) 0 [] tt (h, (k, tt)) nul-IsEnd ∙ ground arith

module _ (a b c d e f : ℕ) (rest : List ℕ) where
  date_word-NoNul : NoNul (date_word a b c d e f)
  date_word-NoNul = (
    omega arith,
    (
      omega arith,
      (omega arith, (omega arith, (omega arith, (omega arith, (omega arith, (omega arith, tt)))))),
    ),
  )

pub inside : (low high n : ℕ) → low ≤ n → n ≤ high → out_of_range low high (pos n) ≡ false
inside low high n h k = ground arith

-- the digits of a date that `set_date` accepts
pub record IsDate (a b c d e f : ℕ) : Type 0 where
  pub digits : (a < 10) × (b < 10) × (c < 10) × (d < 10) × (e < 10) × (f < 10)
  pub day : (1 ≤ a * 10 + b) × (a * 10 + b ≤ 31)
  pub month : (1 ≤ c * 10 + d) × (c * 10 + d ≤ 12)

pub write_date-valid :
    (a b c d e f : ℕ) (rest : List ℕ) (s : Session)
    → IsDate a b c d e f
    → write_date (date_word a b c d e f ++ 0 ∷ rest) s
      ≡ ok (
          say "\nDate set successfully. \n" (
            rtc_write 9
              (to_bcd (e * 10 + f))
              (rtc_write 8 (to_bcd (c * 10 + d)) (rtc_write 7 (to_bcd (a * 10 + b)) s))))
unfolding write_date pair at
write_date-valid a b c d e f rest s is =
    let (da, db, dc, dd, de, df) = is.digits in
    rw
      (
        strlen_lem (date_word a b c d e f) rest (date_word-NoNul a b c d e f rest),
        atoi-two a b da db,
        atoi-two c d dc dd,
        atoi-two e f de df,
        inside 1 31 (a * 10 + b) is.day.0 is.day.1,
        inside 1 12 (c * 10 + d) is.month.0 is.month.1,
        inside 0 99 (e * 10 + f) (omega arith) (omega arith),
      )
      refl

-- the text that `get_date` sends
abbrev pub date_text : (day month year : ℕ) → List ℕ
date_text day month year = 10 ∷ bcd_text day ++ 47 ∷ bcd_text month ++ 47 ∷ bcd_text year ++ 10 ∷ []

date_text-NoNul : (day month year : ℕ) → NoNul (date_text day month year)
date_text-NoNul day month year = (
  omega arith,
  (
    omega arith,
    (
      omega arith,
      (
        omega arith,
        (
          omega arith,
          (omega arith, (omega arith, (omega arith, (omega arith, (omega arith, tt))))),
        ),
      ),
    ),
  ),
)

pub get_date-text :
    (d : Session)
    → Returns
        (λ d'.
          d'.console
          ≡ d.console ++ date_text (d.clock 7 % 256) (d.clock 8 % 256) (d.clock 9 % 256) ∷ [])
        (get_date d)
unfolding get_date rtc_read outb send request
get_date-text d =
    let day = d.clock 7 % 256 in
    let month = d.clock 8 % 256 in
    let year = d.clock 9 % 256 in
    rw (strlen_lem (date_text day month year) [] (date_text-NoNul day month year)) (returns refl)

pub date_word-IsSolid : (a b c d e f : ℕ) → IsDate a b c d e f → IsSolid (date_word a b c d e f)
date_word-IsSolid a b c d e f is =
    let (da, db, dc, dd, de, df) = is.digits in
    let digit : (n : ℕ) → n < 10 → IsSolidChar (48 + n) =
      λ n h. IsSolidChar-digit (48 + n) (omega arith) (omega arith) in
    let slash = IsSolidChar-digit 47 (omega arith) (omega arith) in
    solid_cons (digit a da) (
      solid_cons (digit b db) (
        solid_cons slash (
          solid_cons (digit c dc) (
            solid_cons (digit d dd)
              (solid_cons slash (solid_cons (digit e de) (solid_cons (digit f df) solid_end)))))))

pub set_date-write_date :
    (ks : List Key) (last : Key) (old inputs : List ℕ) (s : Session) (x : ℕ) (w : List ℕ)
    → text ks ≡ x ∷ w
    → IsSolid (x ∷ w)
    → (last.char == 10 || last.char == 13) ≡ true
    → length ks < 11
    → length old ≡ 12
    → s.serial.inputs ≡ typed ks (typed (last ∷ []) inputs)
    → set_date old s
      ≡ write_date
          (x ∷ w ++ 0 ∷ 0 ∷ drop (length ks + 2) old)
          (record (say "\nEnter date (DD/MM/YY): " s) {
            serial = read_line ks last inputs (say "\nEnter date (DD/MM/YY): " s).serial;
          })
unfolding set_date say request
set_date-write_date ks last old inputs s x w e is enter few size reads =
    line_word ks last old inputs (say "\nEnter date (DD/MM/YY): " s).serial x w
      (λ word bytes port. elim word [
        | none ↦ fault
        | some i ↦
            write_date (drop i bytes) (record (say "\nEnter date (DD/MM/YY): " s) { serial = port })
      ])
      e is enter few size reads

-- The registers after a date is written.
pub rtc_write-clock :
    (day month year : ℕ) (d : Session)
    → let clock = (rtc_write 9 year (rtc_write 8 month (rtc_write 7 day d))).clock in
      (clock 7 ≡ day % 256) × (clock 8 ≡ month % 256) × (clock 9 ≡ year % 256)
unfolding rtc_write outb
rtc_write-clock day month year d = (refl, refl, refl)
