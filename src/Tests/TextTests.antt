-- ===== src/Tests/TextTests.antt =====
-- Texts: "ab", "ac", " -42" and a line of two words.
use mpx.Base.{◌≡◌, refl, inr, true, false, none, some, [], ◌∷◌, arith, if◌then◌else◌, ltb, ◌^◌}
use mpx.Base.Int.{negsuc}
use mpx.Base.Run.{ok, fault, Returns}
use mpx.CString.{memcpy, memset, Tokens, strtok, atoi, isspace, is_delim}
use mpx.CString.Itoa.{itoa}
use mpx.CString.Itoa.RoundTrip.{atoi-itoa}
use mpx.CString.Strtok.{strtok-word}
use mpx.CString.Number.{nul-IsEnd, minus, decimal, with_sign, atoi_lem}

memcpy_run : memcpy (1 ∷ 2 ∷ 3 ∷ []) (7 ∷ 8 ∷ []) 2 ≡ ok (7 ∷ 8 ∷ 3 ∷ [])
unfolding memcpy
memcpy_run = refl

memset_run : memset (1 ∷ 2 ∷ 3 ∷ []) 0 2 ≡ ok (0 ∷ 0 ∷ 3 ∷ [])
unfolding memset
memset_run = refl

space-IsSpace : isspace 32 ≡ true
unfolding isspace
space-IsSpace = refl

atoi_example : atoi (32 ∷ 45 ∷ 52 ∷ 50 ∷ 0 ∷ []) ≡ (
    if ltb (decimal 0 (4 ∷ 2 ∷ [])) (2 ^ 31)
    then ok (with_sign minus (decimal 0 (4 ∷ 2 ∷ [])))
    else fault)
atoi_example =
    atoi_lem (32 ∷ []) minus (4 ∷ 2 ∷ []) 0 [] (space-IsSpace, tt) (omega arith, (omega arith, tt))
      nul-IsEnd

blank_delim : is_delim (32 ∷ []) 32 ≡ true
unfolding is_delim
blank_delim = refl

letter_delim : is_delim (32 ∷ []) 97 ≡ false
unfolding is_delim
letter_delim = refl

-- " a b"
abbrev two_words_line : Tokens
two_words_line = record { bytes = 32 ∷ 97 ∷ 32 ∷ 98 ∷ 0 ∷ []; tok_tmp = none }

strtok-word_example :
    strtok two_words_line (some 0) (32 ∷ [])
    ≡ ok (some 1, record { bytes = 32 ∷ 97 ∷ 0 ∷ 98 ∷ 0 ∷ []; tok_tmp = some 3 })
strtok-word_example =
    strtok-word two_words_line (32 ∷ []) [] (32 ∷ []) ((omega arith, blank_delim), tt) 97 [] 32
      (98 ∷ 0 ∷ []) ((omega arith, letter_delim), tt) (inr (omega arith, blank_delim)) refl

atoi-itoa_example :
    Returns
      (λ str'. atoi str' ≡ ok (negsuc 41))
      (itoa 12 (negsuc 41) 10 (1 ∷ 2 ∷ 3 ∷ 4 ∷ 5 ∷ 6 ∷ 7 ∷ 8 ∷ 9 ∷ 10 ∷ 11 ∷ 12 ∷ []))
atoi-itoa_example =
    atoi-itoa 12 (negsuc 41) (1 ∷ 2 ∷ 3 ∷ 4 ∷ 5 ∷ 6 ∷ 7 ∷ 8 ∷ 9 ∷ 10 ∷ 11 ∷ 12 ∷ []) (omega arith)
      (omega arith) (omega arith)
