-- ===== src/User/Output.antt =====
-- What the test processes of user/core.c write.
use mpx.Base.{
  ℕ, zero, suc, ◌+◌, ◌≤◌, ◌<◌, ◌≡◌, refl, ◌∙◌, ap, sym, List, [], ◌∷◌, ◌++◌, arith, length,
  length-append, take-length, drop,
}
use mathlib.Core.List.{append_assoc}
use mpx.Base.Run.{Run, ok, out_of_fuel, ◌>>=◌, bind_same}
use mpx.Base.Text.{codes}
use mpx.CString.Laws.{NoNul, c_string, strlen_lem, memcpy-nul}
use mpx.User.{copy_text, append_text, make_line, write_output, dispatch_loop, exit_loop, r3_proc}

drop_rest : (k : ℕ) (old : List ℕ) → k ≤ length old → k + length (drop k old) ≡ length old
drop_rest zero old h = omega arith
drop_rest (suc k) [] h = absurd (omega arith)
drop_rest (suc k) (x ∷ old) h = omega (arith, drop_rest k old (omega arith))

drop_first : (xs ys : List ℕ) → drop (length xs) (xs ++ ys) ≡ ys
drop_first [] ys = refl
drop_first (x ∷ xs) ys = drop_first xs ys

NoNul-append : (xs ys : List ℕ) → NoNul xs → NoNul ys → NoNul (xs ++ ys)
NoNul-append [] ys h k = k
NoNul-append (x ∷ xs) ys h k = (h.0, NoNul-append xs ys h.1 k)

-- an array of `size` bytes that holds a text and its NUL
record Holds (out text : List ℕ) (size : ℕ) : Type 0 where
  tail : List ℕ
  held : out ≡ c_string text tail
  whole : length text + 1 + length tail ≡ size

length-Holds : (out text : List ℕ) (size : ℕ) → Holds out text size → length out ≡ size
length-Holds out text size holds =
    omega (arith, ap length holds.held, length-append text (0 ∷ holds.tail), holds.whole)

copy_text-Holds :
    (old text rest : List ℕ)
    → NoNul text
    → length text < length old
    → (out : List ℕ) × (copy_text old (c_string text rest) ≡ ok out) × Holds out text (length old)
unfolding copy_text
copy_text-Holds old text rest plain fits =
    let tail = drop (suc (length text)) old in
    let count : length text + 1 ≡ suc (length text) = omega arith in
    (
      c_string text tail,
      rw (strlen_lem text rest plain, count) (memcpy-nul text rest old fits),
      record {
        tail = tail;
        held = refl;
        whole = omega (arith, drop_rest (suc (length text)) old (omega arith));
      },
    )

append_text-Holds :
    (out t text rest : List ℕ) (size : ℕ)
    → Holds out t size
    → NoNul t
    → NoNul text
    → length t + length text < size
    → (out' : List ℕ) × (append_text out (c_string text rest) ≡ ok out')
      × Holds out' (t ++ text) size
unfolding append_text
append_text-Holds out t text rest size holds plain_t plain fits =
    let (o, e, h) = copy_text-Holds (0 ∷ holds.tail) text rest plain (omega (arith, holds.whole)) in
    (
      t ++ o,
      rw
          (
            holds.held,
            strlen_lem t holds.tail plain_t,
            drop_first t (0 ∷ holds.tail),
            take-length t (0 ∷ holds.tail),
            e,
          )
          refl,
      record {
        tail = h.tail;
        held = ap (λ l. t ++ l) h.held ∙ sym (append_assoc t text (0 ∷ h.tail));
        whole = omega (arith, h.whole, holds.whole, length-append t text);
      },
    )

-- the line that `make_line` makes
abbrev pub line : (start procname : List ℕ) → List ℕ
line start procname = (start ++ procname) ++ 13 ∷ 10 ∷ []

make_line-Holds :
    (old start procname rest : List ℕ)
    → NoNul start
    → NoNul procname
    → length start + length procname + 2 < length old
    → (out : List ℕ) × (make_line old (c_string start []) (c_string procname rest) ≡ ok out)
      × Holds out (line start procname) (length old)
unfolding make_line
make_line-Holds old start procname rest plain_start plain fits =
    let (o₁, e₁, h₁) = copy_text-Holds old start [] plain_start (omega arith) in
    let (o₂, e₂, h₂) =
      append_text-Holds o₁ start procname rest (length old) h₁ plain_start plain (omega arith) in
    let (o₃, e₃, h₃) =
      append_text-Holds o₂ (start ++ procname) (13 ∷ 10 ∷ []) [] (length old) h₂
        (NoNul-append start procname plain_start plain) (omega arith, (omega arith, tt))
        (omega (arith, length-append start procname)) in
    (o₃, rw (e₁, e₂) e₃, h₃)

module _ {S : Type 0} (write_line : List ℕ → S → Run S) (idle exit : S → Run S) where
  -- a line, and then the request, again and again; after an EXIT that returns without end
  unfoldable pub turns : (iterations : ℕ) → List ℕ → S → Run S
  turns zero text s = ok s
  turns (suc n) text s = write_line text s >>= λ s₁. idle s₁ >>= λ s₂. turns n text s₂

  unfoldable pub failures : (fuel : ℕ) → List ℕ → S → Run S
  failures zero text s = out_of_fuel
  failures (suc fuel) text s = write_line text s >>= λ s₁. exit s₁ >>= λ s₂. failures fuel text s₂

module _ {S : Type 0} (write_line : List ℕ → S → Run S) (idle exit : S → Run S) where
  module _ (out text : List ℕ) (size : ℕ) (holds : Holds out text size) (plain : NoNul text) where
    write_output-line : (s : S) → write_output write_line idle exit out s ≡ write_line text s
    unfolding write_output
    write_output-line s =
        rw (holds.held, strlen_lem text holds.tail plain, take-length text (0 ∷ holds.tail)) refl

    dispatch_loop-turns :
        (n : ℕ) (s : S)
        → dispatch_loop write_line idle exit n out s ≡ turns write_line idle exit n text s
    unfolding dispatch_loop turns
    dispatch_loop-turns zero s = refl
    dispatch_loop-turns (suc n) s = rw (write_output-line s) (
        bind_same (write_line text s) _ _
          λ s₁. bind_same (idle s₁) _ _ λ s₂. dispatch_loop-turns n s₂)

    exit_loop-failures :
        (fuel : ℕ) (s : S)
        → exit_loop write_line idle exit fuel out s ≡ failures write_line idle exit fuel text s
    unfolding exit_loop failures
    exit_loop-failures zero s = refl
    exit_loop-failures (suc fuel) s = rw (write_output-line s) (
        bind_same (write_line text s) _ _
          λ s₁. bind_same (exit s₁) _ _ λ s₂. exit_loop-failures fuel s₂)

line-NoNul : (start procname : List ℕ) → NoNul start → NoNul procname → NoNul (line start procname)
line-NoNul start procname h k =
    NoNul-append (start ++ procname) (13 ∷ 10 ∷ []) (NoNul-append start procname h k)
      (omega arith, (omega arith, tt))

starts-NoNul :
    NoNul (codes "dispatched ") × NoNul (codes "exiting ") × NoNul (codes "FAILURE TO EXIT: ")
starts-NoNul = (ground arith, ground arith, ground arith)

-- A test process with a name without NUL bytes of at most 80 characters does just this, whatever its
-- requests do: it writes its dispatched line and gives the processor up, as often as it was told,
-- then writes its exiting line and exits; where EXIT returns, it writes its failure line and exits
-- again, until the fuel is used up. Its array of 100 bytes is enough for each line.
pub r3_proc-turns :
    {S : Type 0} (write_line : List ℕ → S → Run S) (idle exit : S → Run S) (fuel n : ℕ)
    (old procname rest : List ℕ) (s : S)
    → NoNul procname
    → length procname ≤ 80
    → length old ≡ 100
    → r3_proc write_line idle exit fuel old n (c_string procname rest) s ≡ (
        turns write_line idle exit n (line (codes "dispatched ") procname) s >>= λ s₁.
        write_line (line (codes "exiting ") procname) s₁ >>= λ s₂. exit s₂ >>= λ s₃.
        failures write_line idle exit fuel (line (codes "FAILURE TO EXIT: ") procname) s₃)
unfolding r3_proc
r3_proc-turns write_line idle exit fuel n old procname rest s plain short size =
    let (p₁, p₂, p₃) = starts-NoNul in
    let (o₁, e₁, h₁) =
      make_line-Holds old (codes "dispatched ") procname rest p₁ plain (omega arith) in
    let size₁ : length o₁ ≡ 100 =
      length-Holds o₁ (line (codes "dispatched ") procname) (length old) h₁ ∙ size in
    let (o₂, e₂, h₂) = make_line-Holds o₁ (codes "exiting ") procname rest p₂ plain (omega arith) in
    let size₂ : length o₂ ≡ 100 =
      length-Holds o₂ (line (codes "exiting ") procname) (length o₁) h₂ ∙ size₁ in
    let (o₃, e₃, h₃) =
      make_line-Holds o₂ (codes "FAILURE TO EXIT: ") procname rest p₃ plain (omega arith) in
    rw
      (
        e₁,
        dispatch_loop-turns write_line idle exit o₁ (line (codes "dispatched ") procname)
            (length old) h₁ (line-NoNul (codes "dispatched ") procname p₁ plain) n s,
      )
      (bind_same (turns write_line idle exit n (line (codes "dispatched ") procname) s) _ _ λ s₁.
        rw
          (
            e₂,
            write_output-line write_line idle exit o₂ (line (codes "exiting ") procname) (length o₁)
                h₂ (line-NoNul (codes "exiting ") procname p₂ plain) s₁,
          )
          (bind_same (write_line (line (codes "exiting ") procname) s₁) _ _ λ s₂.
            bind_same (exit s₂) _ _ λ s₃. rw e₃ (
              exit_loop-failures write_line idle exit o₃ (line (codes "FAILURE TO EXIT: ") procname)
                (length o₂) h₃ (line-NoNul (codes "FAILURE TO EXIT: ") procname p₃ plain) fuel s₃)))
