-- ===== src/Command/Clock.antt =====
-- The clock commands of user/commhand.c: get_date, get_time, set_date and set_time. The clock's
-- registers, in `clock`, are read and written through the ports 0x70, which selects one by its
-- number, and 0x71; no time passes between two accesses. `cli` and `sti` are left out.
-- The arrays on the stack hold what the caller gives, where the code does not set them.
pub mod Date
pub mod RoundTrip
pub mod Time
use mpx.Base.{
  ℕ, zero, suc, ◌+◌, ◌-◌, ◌*◌, ◌/◌, ◌%◌, ◌^◌, Bool, true, false, not, ◌&&◌, ◌||◌, Option, none,
  some, List, [], ◌∷◌, ◌++◌, ltb, ◌==◌, if◌then◌else◌, take, drop, get_elem?,
}
use mpx.Base.Int.{ℤ, pos, negsuc, pos_part, ltb_ℤ}
use mpx.Base.Run.{Run, ok, fault, ◌>>=◌}
use mpx.Base.Text.{codes, with_nul}
use mpx.Heap.{Heap}
use mpx.SysMem.{HeapFunctions, sys_alloc_mem}
use mpx.CString.{strtok, strlen, atoi}
use mpx.Serial.{Serial, outb, put, serial_poll}
use mpx.Command.{Session, request, say, separators}

abbrev pub rtc_addr_port : ℕ
rtc_addr_port = 0x70

abbrev pub rtc_data_port : ℕ
rtc_data_port = 0x71

-- `outb(RTC_ADDR_PORT, register); inb(RTC_DATA_PORT)`, and with a value written
unfoldable pub rtc_read : ℕ → Session → Run (ℕ × Session)
unfolding outb
rtc_read register d =
    ok (d.clock register % 256, record d { serial = outb rtc_addr_port register d.serial })

unfoldable pub rtc_write : ℕ → ℕ → Session → Session
unfolding outb
rtc_write register v d = record d {
  serial = outb rtc_data_port v (outb rtc_addr_port register d.serial);
  clock = λ r. if r == register then v % 256 else d.clock r;
}

-- `sys_req(WRITE, COM1, text, strlen(text))` of an array
unfoldable pub send : List ℕ → Session → Run Session
unfolding request
send text d = strlen text >>= λ n. ok (request (take n text) d)

-- the two digits of a byte in BCD
abbrev pub bcd_text : ℕ → List ℕ
bcd_text v = (v / 16 % 16 + 48) ∷ (v % 16 + 48) ∷ []

unfoldable pub get_date : Session → Run Session
unfolding rtc_read send
get_date d = do
  (day, d₁) ← rtc_read 7 d
  (month, d₂) ← rtc_read 8 d₁
  (year, d₃) ← rtc_read 9 d₂
  send (10 ∷ bcd_text day ++ 47 ∷ bcd_text month ++ 47 ∷ bcd_text year ++ 10 ∷ 0 ∷ []) d₃

-- the conversion of a register, and two decimal digits as characters
abbrev pub from_bcd : ℕ → ℕ
from_bcd v = (v % 16 + v / 16 * 10) % 256

abbrev pub decimal_text : ℕ → List ℕ
decimal_text v = ((48 + v / 10) % 256) ∷ (48 + v % 10) ∷ []

-- `hours -= 4` on a uint8_t; `hours < 0` never holds.
abbrev pub eastern : ℕ → ℕ
eastern hours = (hours + 256 - 4) % 256

abbrev pub time_text : (hours minutes seconds : ℕ) → List ℕ
time_text hours minutes seconds =
    10 ∷ decimal_text hours ++ 58 ∷ decimal_text minutes ++ 58 ∷ decimal_text seconds ++ 10 ∷ 0 ∷ []

-- The result is the text's array, or NULL.
unfoldable pub get_time :
    (kmalloc : ℕ → Heap → Run (ℕ × Heap))
    → HeapFunctions
    → Session
    → Run (Option (List ℕ) × Session)
unfolding rtc_read send
get_time kmalloc functions d = rtc_read 4 d >>= λ (hours, d₁). rtc_read 2 d₁ >>= λ (minutes, d₂).
    rtc_read 0 d₂ >>= λ (seconds, d₃).
    sys_alloc_mem kmalloc functions 12 d₃.serial.heap >>= λ (p, h).
    let d₄ = record d₃ { serial = record (d₃.serial) { heap = h } } in
    let text = time_text (eastern (from_bcd hours)) (from_bcd minutes) (from_bcd seconds) in
    if p == 0 then ok (none, d₄) else (send text d₄ >>= λ d₅. ok (some text, d₅))

-- a byte of an array
unfoldable pub at : List ℕ → ℕ → Run ℕ
at s i = elim (get_elem? s i) [ none ↦ fault | some c ↦ ok c ]

-- two bytes of an array as a number
unfoldable pub pair : List ℕ → (i j : ℕ) → Run ℤ
unfolding at
pair s i j = do a ← at s i; b ← at s j; atoi (a ∷ b ∷ 0 ∷ [])

-- `(v / 10) << 4 | (v % 10)`, of a number from 0 to 99
abbrev pub to_bcd : ℕ → ℕ
to_bcd v = v / 10 * 16 + v % 10

-- A number outside of the two bounds.
abbrev pub out_of_range : ℕ → ℕ → ℤ → Bool
out_of_range low high v = ltb_ℤ v (pos low) || ltb_ℤ (pos high) v

-- `set_date` once the word is found: the format, the numbers, their ranges, the registers.
unfoldable pub write_date : List ℕ → Session → Run Session
unfolding at pair rtc_write
write_date word d = strlen word >>= λ n.
    (if n == 8 then (at word 2 >>= λ a. at word 5 >>= λ b. ok (a == 47 && b == 47)) else ok false)
    >>= λ good.
        if not good
        then ok (say "\nInvalid date format. Please use DD/MM/YY. \n" d)
        else (pair word 0 1 >>= λ day. pair word 3 4 >>= λ month. pair word 6 7 >>= λ year.
            if out_of_range 1 31 day || out_of_range 1 12 month || out_of_range 0 99 year
            then ok (say "\nInvalid date. Please check the values. \n" d)
            else ok (
                say "\nDate set successfully. \n" (
                  rtc_write 9 (to_bcd (pos_part year)) (
                    rtc_write 8 (to_bcd (pos_part month))
                      (rtc_write 7 (to_bcd (pos_part day)) d)))))

-- `old` is what the array of 12 bytes holds before. The result of `serial_poll` is never -1.
unfoldable pub set_date : (old : List ℕ) → Session → Run Session
unfolding write_date
set_date old d =
    let d₁ = say "\nEnter date (DD/MM/YY): " d in
    serial_poll 12 old d₁.serial >>= λ (nread, line, port). put line nread 0 >>= λ buf.
    strtok (record { bytes = buf; tok_tmp = none }) (some 0) separators >>= λ (word, t). elim word [
      | none ↦ fault
      | some i ↦ write_date (drop i t.bytes) (record d₁ { serial = port })
    ]

-- `set_time` once the line is read. `junk` is what `seconds` holds behind its first byte, which
-- alone the code sets: the eighth byte of the line goes to `minutes`.
unfoldable pub write_time : (junk buf : List ℕ) → Session → Run Session
unfolding at pair rtc_write
write_time junk buf d = pair buf 0 1 >>= λ hour. pair buf 3 7 >>= λ minutes. at buf 6 >>= λ s.
    atoi (s ∷ junk) >>= λ seconds.
    if out_of_range 0 23 hour || out_of_range 0 59 minutes || out_of_range 0 59 seconds
    then ok (say "\nInvalid time input. \n" d)
    else ok (
        say "\nTime set successfully. \n" (
          rtc_write 0 (pos_part seconds)
            (rtc_write 2 (pos_part minutes) (rtc_write 4 (pos_part hour) d))))

-- The prompt is cut by one byte, since its length is taken of another text.
unfoldable pub set_time : (junk old : List ℕ) → Session → Run Session
unfolding write_time request
set_time junk old d =
    let d₁ = request (take 23 (codes "\nEnter time (HH:MM:SS): ")) d in
    serial_poll 20 old d₁.serial >>= λ (nread, buf, port).
    let d₂ = record d₁ { serial = port } in
    if ltb nread 5 then ok (say "\nInvalid input format. \n" d₂) else write_time junk buf d₂
