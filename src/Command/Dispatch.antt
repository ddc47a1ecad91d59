-- ===== src/Command/Dispatch.antt =====
-- The command handler `commhand` of user/commhand.c: which command a typed word is.
use Prim.Native.String.{String}
use mathlib.Core.Path.{subst}
use mpx.Base.{
  ℕ, ◌≡◌, refl, ◌∙◌, ap, sym, ◌↔◌, ◌⊎◌, ◌≢◌, Bool, Bool-cases, inl, inr, Option, none, some, List,
  [], ◌∷◌, arith, if◌then◌else◌, drop,
}
use mpx.Base.Int.{ℤ, pos, eqb_ℤ, eqb_ℤ→eq}
use mpx.Base.Run.{Run, ok, ◌>>=◌, Returns, returns, Returns-mono, returned}
use mpx.Base.Text.{codes, with_nul}
use mpx.CString.{strtok, strcmp}
use mpx.CString.Laws.{NoNul, c_string, strcmp_lem}
use mpx.Command.{Session, say, separators, zeros}
use mpx.Command.Texts.{menu}

pub data Command : Type 0 where
  alarm delete_pcb get_date get_time help load_r3 resume_pcb set_date : Command
  set_pcb_priority set_time show_all show_pcb show_ready shutdown suspend_pcb version : Command

abbrev pub word_of : Command → String
word_of alarm = "alarm"
word_of delete_pcb = "deletePCB"
word_of get_date = "getdate"
word_of get_time = "gettime"
word_of help = "help"
word_of load_r3 = "loadR3"
word_of resume_pcb = "resumePCB"
word_of set_date = "setdate"
word_of set_pcb_priority = "setPCBpriority"
word_of set_time = "settime"
word_of show_all = "showall"
word_of show_pcb = "showPCB"
word_of show_ready = "showready"
word_of shutdown = "shutdown"
word_of suspend_pcb = "suspendPCB"
word_of version = "version"

-- the order of the tests
abbrev pub commands : List Command
commands =
    alarm ∷ delete_pcb ∷ get_date ∷ get_time ∷ help ∷ load_r3 ∷ resume_pcb ∷ set_date
    ∷ set_pcb_priority ∷ set_time ∷ show_all ∷ show_pcb ∷ show_ready ∷ shutdown ∷ suspend_pcb
    ∷ version ∷ []

-- the chain of `if (strcmp(input, ...) == 0)`
unfoldable pub find_command : List Command → List ℕ → Run (Option Command)
find_command [] input = ok none
find_command (c ∷ cs) input =
    let rest = find_command cs input in
    strcmp input (with_nul (word_of c)) >>= λ r. if eqb_ℤ r (pos 0) then ok (some c) else rest

-- One round of `commhand`'s loop. `read` is the READ request into the array of 20 NUL bytes, whose
-- result is negative as its first value says; `run` is what each command does.
unfoldable pub round :
    (read : List ℕ → Session → Run (Bool × List ℕ × Session))
    → (run : Command → Session → Run Session) → Session
    → Run Session
unfolding find_command
round read run d = read (zeros 20) (menu d) >>= λ (overflow, buf, d₁).
    if overflow
    then ok (say "Buffer Overflow\n" d₁)
    else (strtok (record { bytes = buf; tok_tmp = none }) (some 0) separators >>= λ (word, t).
        elim word [
          | none ↦ ok d₁
          | some i ↦ find_command commands (drop i t.bytes) >>= λ found. elim found [
            | none ↦ ok (say "\nInvalid input, please try again\n" d₁)
            | some c ↦ run c d₁
          ]
        ])

-- `found` is the first of the commands whose word is `t`, if there is one.
abbrev pub IsFirst : List Command → List ℕ → Option Command → Type 0
IsFirst [] t found = found ≡ none
IsFirst (c ∷ cs) t found =
    ((t ≡ codes (word_of c)) × (found ≡ some c)) ⊎ (t ≢ codes (word_of c)) × IsFirst cs t found

word-NoNul : (c : Command) → NoNul (codes (word_of c))
word-NoNul alarm = ground arith
word-NoNul delete_pcb = ground arith
word-NoNul get_date = ground arith
word-NoNul get_time = ground arith
word-NoNul help = ground arith
word-NoNul load_r3 = ground arith
word-NoNul resume_pcb = ground arith
word-NoNul set_date = ground arith
word-NoNul set_pcb_priority = ground arith
word-NoNul set_time = ground arith
word-NoNul show_all = ground arith
word-NoNul show_pcb = ground arith
word-NoNul show_ready = ground arith
word-NoNul shutdown = ground arith
word-NoNul suspend_pcb = ground arith
word-NoNul version = ground arith

find_command-step :
    (c : Command) (cs : List Command) (input : List ℕ) (r : ℤ)
    → strcmp input (with_nul (word_of c)) ≡ ok r
    → find_command (c ∷ cs) input ≡ (if eqb_ℤ r (pos 0) then ok (some c) else find_command cs input)
unfolding find_command
find_command-step c cs input r e = rw e refl

find_command-IsFirst :
    (cs : List Command) (t rest : List ℕ)
    → NoNul t
    → Returns (IsFirst cs t) (find_command cs (c_string t rest))
unfolding find_command
find_command-IsFirst [] t rest plain = returns refl
find_command-IsFirst (c ∷ cs) t rest plain =
    let (r, e, same) = returned (strcmp_lem t (codes (word_of c)) rest [] plain (word-NoNul c)) in
    elim (Bool-cases (eqb_ℤ r (pos 0))) [
      | inl yes_same ↦
          rw (find_command-step c cs (c_string t rest) r e, yes_same)
            (returns (inl (same.0.0 (eqb_ℤ→eq r (pos 0) yes_same), refl)))
      | inr differ ↦
          rw (find_command-step c cs (c_string t rest) r e, differ)
            (Returns-mono (find_command-IsFirst cs t rest plain) λ found first.
              inr ((λ z. let zero : r ≡ pos 0 = same.0.1 z in ground (arith, zero)), first))
    ]

first_word :
    (cs : List Command) (t : List ℕ) (c : Command) → IsFirst cs t (some c) → t ≡ codes (word_of c)
first_word [] t c e = cc
first_word (b ∷ cs) t c (inl (e, same)) =
    let one : b ≡ c = cc in e ∙ ap (λ x. codes (word_of x)) one
first_word (b ∷ cs) t c (inr (_, h)) = first_word cs t c h

find_command-word :
    (c : Command) (rest : List ℕ)
    → find_command commands (c_string (codes (word_of c)) rest) ≡ ok (some c)
unfolding find_command strcmp
find_command-word alarm rest = refl
find_command-word delete_pcb rest = refl
find_command-word get_date rest = refl
find_command-word get_time rest = refl
find_command-word help rest = refl
find_command-word load_r3 rest = refl
find_command-word resume_pcb rest = refl
find_command-word set_date rest = refl
find_command-word set_pcb_priority rest = refl
find_command-word set_time rest = refl
find_command-word show_all rest = refl
find_command-word show_pcb rest = refl
find_command-word show_ready rest = refl
find_command-word shutdown rest = refl
find_command-word suspend_pcb rest = refl
find_command-word version rest = refl

value {a} : {X : Type a} {x y : X} → ok x ≡ ok y → x ≡ y
value e = cc

-- The chain of tests in `commhand`, on a word without NUL bytes and with a NUL behind it, returns
-- a command exactly if the word is that command's, and else reaches the message for invalid input.
pub find_command_lem :
    (t rest : List ℕ)
    → NoNul t
    → Returns
        (λ found. (c : Command) → (found ≡ some c) ↔ (t ≡ codes (word_of c)))
        (find_command commands (c_string t rest))
find_command_lem t rest plain =
    let (found, e, first) = returned (find_command-IsFirst commands t rest plain) in
    rw e (
      returns λ c. (
        λ is. first_word commands t c (subst (IsFirst commands t) is first),
        λ same. value (
            sym e
            ∙ ap (λ (x : List ℕ). find_command commands (c_string x rest)) same
            ∙ find_command-word c rest),
      ))
