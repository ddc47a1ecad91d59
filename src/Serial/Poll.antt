-- ===== src/Serial/Poll.antt =====
-- `serial_poll` of kernel/serial.c reading a line.
use mpx.Base.{
  ℕ, suc, ◌+◌, ◌*◌, ◌%◌, ◌<◌, ◌≤◌, ◌≡◌, refl, ◌∙◌, ap, true, false, ◌||◌, List, [], ◌∷◌, ◌++◌,
  arith, ltb, lt→ltb, ◌==◌, length, length-append, length-set, set, drop,
}
use mpx.Base.Run.{Run, ok, ◌>>=◌}
use mpx.Serial.{com1, Serial, Polled, put, poll, serial_poll}

-- A key: the status bytes without DR before it (halved), the one with DR, and the character.
pub record Key : Type 0 where
  pub waits : List ℕ
  pub ready : ℕ
  pub char : ℕ

abbrev pub waiting : List ℕ → List ℕ → List ℕ
waiting [] rest = rest
waiting (w ∷ ws) rest = (2 * w) ∷ waiting ws rest

-- what the port answers for these keys
abbrev pub typed : List Key → List ℕ → List ℕ
typed [] rest = rest
typed (k ∷ ks) rest = waiting k.waits ((2 * k.ready + 1) ∷ k.char ∷ typed ks rest)

abbrev pub text : List Key → List ℕ
text [] = []
text (k ∷ ks) = k.char ∷ text ks

-- characters that are not backspace, delete, new-line or return
abbrev pub ArePlain : List Key → Type 0
ArePlain [] = Unit {0}
ArePlain (k ∷ ks) =
    ((k.char == 8 || k.char == 127) ≡ false)
    × ((k.char == 10 || k.char == 13) ≡ false)
    × ArePlain ks

-- the characters written back, the newest first
abbrev pub echo : List Key → List (ℕ × ℕ) → List (ℕ × ℕ)
echo [] out = out
echo (k ∷ ks) out = echo ks ((com1, k.char) ∷ out)

module _ (len : ℕ) (b : List ℕ) (n : ℕ) (room : n < len) (out : List (ℕ × ℕ)) where
  poll-busy :
      (w c : ℕ) (inputs : List ℕ)
      → poll len b n ((2 * w) ∷ c ∷ inputs) out ≡ poll len b n (c ∷ inputs) out
  unfolding poll
  poll-busy w c inputs =
      let low : ltb n len ≡ true = lt→ltb n len room in
      let even : (2 * w % 2 == 0) ≡ true = ground arith in rw (low, even) refl

  poll-waiting :
      (ws : List ℕ) (s c : ℕ) (inputs : List ℕ)
      → poll len b n (waiting ws (s ∷ c ∷ inputs)) out ≡ poll len b n (s ∷ c ∷ inputs) out
  poll-waiting [] s c inputs = refl
  poll-waiting (w ∷ []) s c inputs = poll-busy w s (c ∷ inputs)
  poll-waiting (w ∷ v ∷ ws) s c inputs =
      poll-busy w (2 * v) (waiting ws (s ∷ c ∷ inputs)) ∙ poll-waiting (v ∷ ws) s c inputs

  poll-char :
      (r c : ℕ) (inputs : List ℕ)
      → n < length b
      → (c == 8 || c == 127) ≡ false
      → (c == 10 || c == 13) ≡ false
      → poll len b n ((2 * r + 1) ∷ c ∷ inputs) out
        ≡ poll len (set b n c) (n + 1) inputs ((com1, c) ∷ out)
  unfolding poll put
  poll-char r c inputs fits plain more =
      let low : ltb n len ≡ true = lt→ltb n len room in
      let odd : ((2 * r + 1) % 2 == 0) ≡ false = ground arith in
      let here : ltb n (length b) ≡ true = lt→ltb n (length b) fits in
      rw (low, odd, here, plain, more) refl

  poll-enter :
      (r c : ℕ) (inputs : List ℕ)
      → n + 1 < length b
      → (c == 10 || c == 13) ≡ true
      → poll len b n ((2 * r + 1) ∷ c ∷ inputs) out
        ≡ ok (record {
          bytes_read = n + 1;
          buffer = set (set b n c) (n + 1) 0;
          inputs = inputs;
          outputs = (com1, 10) ∷ (com1, c) ∷ out;
        })
  unfolding poll put
  poll-enter r c inputs fits enter =
      let low : ltb n len ≡ true = lt→ltb n len room in
      let odd : ((2 * r + 1) % 2 == 0) ≡ false = ground arith in
      let here : ltb n (length b) ≡ true = lt→ltb n (length b) (omega arith) in
      let plain : (c == 8 || c == 127) ≡ false = ground arith in
      let behind : ltb (n + 1) (length (set b n c)) ≡ true =
        lt→ltb (n + 1) (length (set b n c)) (omega (arith, length-set b n c)) in
      rw (low, odd, here, plain, enter, behind) refl

-- the bytes `cs` written to the array from `n` on
abbrev fill : List ℕ → ℕ → List ℕ → List ℕ
fill b n [] = b
fill b n (c ∷ cs) = fill (set b n c) (n + 1) cs

fill-cons : (x : ℕ) (b : List ℕ) (n : ℕ) (cs : List ℕ) → fill (x ∷ b) (n + 1) cs ≡ x ∷ fill b n cs
fill-cons x b n [] = refl
fill-cons x b n (c ∷ cs) =
    ap (λ l. fill l (n + 1 + 1) cs) (set_behind x b n c) ∙ fill-cons x (set b n c) (n + 1) cs
  where
    set_behind : (x : ℕ) (b : List ℕ) (n c : ℕ) → set (x ∷ b) (n + 1) c ≡ x ∷ set b n c
    set_behind x b n c = ap (λ k. set (x ∷ b) k c) (succ n)
      where
        succ : (n : ℕ) → n + 1 ≡ suc n
        succ n = omega arith

fill-start : (b cs : List ℕ) → length cs ≤ length b → fill b 0 cs ≡ cs ++ drop (length cs) b
fill-start b [] h = refl
fill-start [] (c ∷ cs) h = absurd (omega arith)
fill-start (x ∷ b) (c ∷ cs) h = fill-cons c b 0 cs ∙ ap (λ l. c ∷ l) (fill-start b cs (omega arith))

-- what the call leaves after a line `cs` that the byte `c` ended
abbrev line_read : List ℕ → ℕ → List ℕ → ℕ → List ℕ → List (ℕ × ℕ) → Polled
line_read b n cs c inputs out = record {
  bytes_read = n + length cs + 1;
  buffer = fill b n (cs ++ (c ∷ 0 ∷ []));
  inputs = inputs;
  outputs = (com1, 10) ∷ (com1, c) ∷ out;
}

count_last : (n : ℕ) → n + 1 ≡ n + 0 + 1
count_last n = omega arith

count_key : (n l : ℕ) → n + 1 + l + 1 ≡ n + suc l + 1
count_key n l = omega arith

poll-typed :
    (ks : List Key) (last : Key) (len n : ℕ) (b inputs : List ℕ) (out : List (ℕ × ℕ))
    → ArePlain ks
    → (last.char == 10 || last.char == 13) ≡ true
    → n + length ks < len
    → n + length ks + 1 < length b
    → poll len b n (typed ks (typed (last ∷ []) inputs)) out
      ≡ ok (line_read b n (text ks) last.char inputs (echo ks out))
poll-typed [] last len n b inputs out plain enter room fits =
    poll-waiting len b n (omega arith) out last.waits (2 * last.ready + 1) last.char inputs
    ∙ poll-enter len b n (omega arith) out last.ready last.char inputs (omega arith) enter
    ∙ ap
        (λ k. ok (record {
          bytes_read = k;
          buffer = fill b n (last.char ∷ 0 ∷ []);
          inputs = inputs;
          outputs = (com1, 10) ∷ (com1, last.char) ∷ out;
        }))
        (count_last n)
poll-typed (k ∷ ks) last len n b inputs out plain enter room fits =
    poll-waiting len b n (omega arith) out k.waits (2 * k.ready + 1) k.char
      (typed ks (typed (last ∷ []) inputs))
    ∙ poll-char len b n (omega arith) out k.ready k.char (typed ks (typed (last ∷ []) inputs))
        (omega arith) plain.0 plain.1
    ∙ poll-typed ks last len (n + 1) (set b n k.char) inputs ((com1, k.char) ∷ out) plain.2 enter
        (omega arith) (omega (arith, length-set b n k.char))
    ∙ ap
        (λ m. ok (record {
          bytes_read = m;
          buffer = fill b n (text (k ∷ ks) ++ (last.char ∷ 0 ∷ []));
          inputs = inputs;
          outputs = (com1, 10) ∷ (com1, last.char) ∷ echo (k ∷ ks) out;
        }))
        (count_key n (length (text ks)))

pub length-text : (ks : List Key) → length (text ks) ≡ length ks
length-text [] = refl
length-text (k ∷ ks) = ap suc (length-text ks)

drop-append : (cs : List ℕ) (x y : ℕ) → length (cs ++ (x ∷ y ∷ [])) ≡ length cs + 2
drop-append cs x y = length-append cs (x ∷ y ∷ [])

append_assoc :
    (cs : List ℕ) (x y : ℕ) (rest : List ℕ) → (cs ++ (x ∷ y ∷ [])) ++ rest ≡ cs ++ (x ∷ y ∷ rest)
append_assoc [] x y rest = refl
append_assoc (c ∷ cs) x y rest = ap (λ l. c ∷ l) (append_assoc cs x y rest)

line_buffer :
    (b cs : List ℕ) (c : ℕ)
    → length cs + 2 ≤ length b
    → fill b 0 (cs ++ (c ∷ 0 ∷ [])) ≡ cs ++ (c ∷ 0 ∷ drop (length cs + 2) b)
line_buffer b cs c h =
    fill-start b (cs ++ (c ∷ 0 ∷ [])) (omega (arith, length-append cs (c ∷ 0 ∷ [])))
    ∙ append_assoc cs c 0 (drop (length (cs ++ (c ∷ 0 ∷ []))) b)
    ∙ ap (λ k. cs ++ (c ∷ 0 ∷ drop k b)) (drop-append cs c 0)

-- what `serial_poll` makes of its loop's end
abbrev polled : Serial → Polled → Run (ℕ × List ℕ × Serial)
polled s p = ok (p.bytes_read, p.buffer, record s { inputs = p.inputs; outputs = p.outputs })

-- `serial_poll` of a line of plain characters ended by new-line or return, each byte after any
-- number of status bytes without DR, with fewer characters than `len` and room in the buffer for
-- two bytes more: it returns the length with the end of line; the buffer has the line, the byte
-- that ended it, a NUL, and behind them what it had; every character is written back in order, and
-- a new-line after the last; later input is left alone.
pub serial_poll_line :
    (ks : List Key) (last : Key) (len : ℕ) (buffer inputs : List ℕ) (s : Serial)
    → ArePlain ks
    → (last.char == 10 || last.char == 13) ≡ true
    → length ks < len
    → length ks + 2 ≤ length buffer
    → s.inputs ≡ typed ks (typed (last ∷ []) inputs)
    → serial_poll len buffer s
      ≡ ok (
        length ks + 1,
        text ks ++ (last.char ∷ 0 ∷ drop (length ks + 2) buffer),
        record s { inputs = inputs; outputs = (com1, 10) ∷ (com1, last.char) ∷ echo ks s.outputs },
      )
unfolding serial_poll
serial_poll_line ks last len buffer inputs s plain enter room fits e =
    let after : ℕ → List ℕ → ℕ × List ℕ × Serial = λ n b. (
      n,
      b,
      record s { inputs = inputs; outputs = (com1, 10) ∷ (com1, last.char) ∷ echo ks s.outputs },
    ) in
    let size : 0 + length (text ks) + 1 ≡ length ks + 1 = omega (arith, length-text ks) in
    let line = line_buffer buffer (text ks) last.char (omega (arith, length-text ks)) in
    ap (λ (i : List ℕ). poll len buffer 0 i s.outputs >>= polled s) e
    ∙ ap (λ (r : Run Polled). r >>= polled s)
        (poll-typed ks last len 0 buffer inputs s.outputs plain enter (omega arith) (omega arith))
    ∙ ap (λ (n : ℕ). ok (after n (fill buffer 0 (text ks ++ (last.char ∷ 0 ∷ []))))) size
    ∙ ap (λ (b : List ℕ). ok (after (length ks + 1) b)) line
    ∙ ap (λ (l : ℕ). ok (after (length ks + 1) (text ks ++ (last.char ∷ 0 ∷ drop (l + 2) buffer))))
        (length-text ks)
