-- ===== src/Command/Line.antt =====
-- What the commands of user/commhand.c read of a typed line: its first word.
use mpx.Base.{
  ℕ, suc, ◌+◌, ◌<◌, ◌≤◌, ◌≡◌, refl, ap, inr, true, false, ◌||◌, Option, some, none, List, [], ◌∷◌,
  ◌++◌, arith, ltb, lt→ltb, ◌==◌, length, length-append, set, drop,
}
use mpx.Base.Run.{Run, ok, ◌>>=◌}
use mpx.CString.{strtok, is_delim}
use mpx.CString.Strtok.{IsWord, strtok-word}
use mpx.Serial.{com1, Serial, put, serial_poll}
use mpx.Serial.Poll.{Key, typed, text, ArePlain, echo, length-text, serial_poll_line}
use mpx.Command.{separators}

-- characters that serial_poll keeps and strtok does not cut
pub record IsSolidChar (c : ℕ) : Type 0 where
  pub kept : (c == 8 || c == 127) ≡ false
  pub inner : (c == 10 || c == 13) ≡ false
  pub some_char : 0 < c
  pub uncut : is_delim separators c ≡ false

pub data IsSolid : List ℕ → Type 0 where
  solid_end : IsSolid []
  solid_cons : {c : ℕ} {cs : List ℕ} → IsSolidChar c → IsSolid cs → IsSolid (c ∷ cs)

pub solid-ArePlain : (ks : List Key) {cs : List ℕ} → IsSolid cs → text ks ≡ cs → ArePlain ks
solid-ArePlain [] is e = tt
solid-ArePlain (k ∷ ks) solid_end e = absurd (omega (arith, ap length e))
solid-ArePlain (k ∷ ks) (solid_cons {c} {cs} h is) e =
    let same : k.char ≡ c = cc in (rw same h.kept, rw same h.inner, solid-ArePlain ks is (cc))

solid-IsWord : {cs : List ℕ} → IsSolid cs → IsWord separators cs
solid-IsWord solid_end = tt
solid-IsWord (solid_cons h is) = ((h.some_char, h.uncut), solid-IsWord is)

pub IsSolidChar-digit : (n : ℕ) → 47 ≤ n → n < 59 → IsSolidChar n
unfolding is_delim
IsSolidChar-digit n h k = record {
  kept = ground arith;
  inner = ground arith;
  some_char = omega arith;
  uncut = ground arith;
}

end-delim : (c : ℕ) → (c == 10 || c == 13) ≡ true → (0 < c) × (is_delim separators c ≡ true)
unfolding is_delim
end-delim c h = (ground arith, ground arith)

-- the port after a line is read
abbrev pub read_line : List Key → Key → List ℕ → Serial → Serial
read_line ks last inputs s = record s {
  inputs = inputs;
  outputs = (com1, 10) ∷ (com1, last.char) ∷ echo ks s.outputs;
}

set_nul :
    (w : List ℕ) (c : ℕ) (rest : List ℕ)
    → set (w ++ (c ∷ 0 ∷ rest)) (suc (length w)) 0 ≡ w ++ (c ∷ 0 ∷ rest)
set_nul [] c rest = refl
set_nul (x ∷ w) c rest = ap (λ l. x ∷ l) (set_nul w c rest)

put_nul :
    (w : List ℕ) (c : ℕ) (rest : List ℕ) (n : ℕ)
    → n ≡ suc (length w)
    → put (w ++ (c ∷ 0 ∷ rest)) n 0 ≡ ok (w ++ (c ∷ 0 ∷ rest))
unfolding put
put_nul w c rest n e =
    let fits : ltb n (length (w ++ (c ∷ 0 ∷ rest))) ≡ true =
      lt→ltb n (length (w ++ (c ∷ 0 ∷ rest))) (omega (arith, e, length-append w (c ∷ 0 ∷ rest))) in
    rw (fits, e) (ap ok (set_nul w c rest))

-- the line that was read, and its first word
pub line_word :
    (ks : List Key) (last : Key) (old inputs : List ℕ) (s : Serial) (x : ℕ) (w : List ℕ)
    {X : Type 0} (next : Option ℕ → List ℕ → Serial → Run X)
    → text ks ≡ x ∷ w
    → IsSolid (x ∷ w)
    → (last.char == 10 || last.char == 13) ≡ true
    → length ks < 11
    → length old ≡ 12
    → s.inputs ≡ typed ks (typed (last ∷ []) inputs)
    → (serial_poll 12 old s >>= λ (nread, line, port). put line nread 0 >>= λ buf.
        strtok (record { bytes = buf; tok_tmp = none }) (some 0) separators >>= λ (word, t).
        next word t.bytes port)
      ≡ next (some 0) (x ∷ w ++ 0 ∷ 0 ∷ drop (length ks + 2) old) (read_line ks last inputs s)
line_word ks last old inputs s x w next e is enter few size reads =
    let plain = solid-ArePlain ks is e in
    let buf = x ∷ w ++ last.char ∷ 0 ∷ drop (length ks + 2) old in
    let nul : put buf (length ks + 1) 0 ≡ ok buf =
      put_nul (x ∷ w) last.char (drop (length ks + 2) old) (length ks + 1)
        (omega (arith, length-text ks, ap length e)) in
    rw
      (
        serial_poll_line ks last 12 old inputs s plain enter (omega arith) (omega arith) reads,
        e,
        nul,
        strtok-word (record { bytes = buf; tok_tmp = none }) separators [] [] tt x w last.char
            (0 ∷ drop (length ks + 2) old) (solid-IsWord is) (inr (end-delim last.char enter)) refl,
      )
      refl
