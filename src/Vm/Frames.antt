-- ===== src/Vm/Frames.antt =====
-- The frame bitmap of kernel/core-c.c as one list of bits.
use mathlib.Core.Option
use mpx.Base.{
  ℕ, zero, suc, ◌+◌, ◌*◌, ◌/◌, ◌%◌, ◌^◌, ◌<◌, ◌≤◌, ◌≡◌, refl, ◌∙◌, ap, sym, Bool, true, false,
  Option, none, some, List, [], ◌∷◌, ◌++◌, arith, if◌then◌else◌, Bool-cases, length, length-append,
  set, get_elem?, inl, inr,
}
use mpx.Base.Run.{Run, ok, fault, Returns, returns, Returns-bind}
use mpx.Vm.{
  page_size, frame_bit, word_mod, PageEntry, find_bit, is_full, find_free_from, find_free, set_in,
  set_bit, take_frame, new_frame,
}

-- all words have 32 bits
abbrev pub AreWords : List (List Bool) → Type 0
AreWords [] = Unit {0}
AreWords (w ∷ ws) = (length w ≡ frame_bit) × AreWords ws

abbrev pub bitmap : List (List Bool) → List Bool
bitmap [] = []
bitmap (w ∷ ws) = w ++ bitmap ws

-- the number of the first clear bit
unfoldable pub first_clear : List Bool → Option ℕ
first_clear [] = none
first_clear (b ∷ bits) = if b then Option.map suc (first_clear bits) else some 0

-- Two renumberings that agree.
renumber : (f g : ℕ → ℕ) (o : Option ℕ) → ((n : ℕ) → f n ≡ g n) → Option.map f o ≡ Option.map g o
renumber f g none same = refl
renumber f g (some n) same = ap some (same n)

renumber_both :
    (f g h : ℕ → ℕ) (o : Option ℕ)
    → ((n : ℕ) → f (g n) ≡ h n)
    → Option.map f (Option.map g o) ≡ Option.map h o
renumber_both f g h none same = refl
renumber_both f g h (some n) same = ap some (same n)

find_bit_lem :
    (bits : List Bool) (j : ℕ) → find_bit bits j ≡ Option.map (λ n. j + n) (first_clear bits)
unfolding find_bit first_clear
find_bit_lem [] j = refl
find_bit_lem (true ∷ bits) j =
    find_bit_lem bits (j + 1)
    ∙ sym (renumber_both (λ n. j + n) suc (λ n. j + 1 + n) (first_clear bits) (λ n. omega arith))
find_bit_lem (false ∷ bits) j = ap some (omega arith)

identity : (o : Option ℕ) → Option.map (λ n. 0 + n) o ≡ o
identity none = refl
identity (some n) = ap some (omega arith)

first_clear-full :
    (w rest : List Bool)
    → is_full w ≡ true
    → first_clear (w ++ rest) ≡ Option.map (λ n. length w + n) (first_clear rest)
unfolding first_clear is_full
first_clear-full [] rest h = sym (identity (first_clear rest))
first_clear-full (true ∷ w) rest h = rw (first_clear-full w rest h) (
    renumber_both suc (λ n. length w + n) (λ n. suc (length w) + n) (first_clear rest)
      (λ n. omega arith))
first_clear-full (false ∷ w) rest h = cc

first_clear-found :
    (w rest : List Bool)
    → is_full w ≡ false
    → (n : ℕ) × (first_clear w ≡ some n) × (first_clear (w ++ rest) ≡ some n)
unfolding first_clear is_full
first_clear-found [] rest h = cc
first_clear-found (true ∷ w) rest h =
    let (n, e, e') = first_clear-found w rest h in
    (suc n, ap (Option.map suc) e, ap (Option.map suc) e')
first_clear-found (false ∷ w) rest h = (0, refl, refl)

clear_none : first_clear [] ≡ none
unfolding first_clear
clear_none = refl

find_free_from_lem :
    (ws : List (List Bool)) (i : ℕ)
    → AreWords ws
    → find_free_from ws i ≡ Option.map (λ n. i * frame_bit + n) (first_clear (bitmap ws))
unfolding find_free_from
find_free_from_lem [] i are = ap (Option.map (λ n. i * frame_bit + n)) (sym clear_none)
find_free_from_lem (w ∷ ws) i are = elim (Bool-cases (is_full w)) [
  | inl full ↦
      rw (full, first_clear-full w (bitmap ws) full, find_free_from_lem ws (i + 1) are.1)
        (sym (
          renumber_both (λ n. i * frame_bit + n) (λ n. length w + n) (λ n. (i + 1) * frame_bit + n)
            (first_clear (bitmap ws)) (λ n. omega arith)))
  | inr partial ↦
      let (n, e, e') = first_clear-found w (bitmap ws) partial in
      rw (partial, find_bit_lem w 0, e, e') (ap some (omega arith))
]

-- With words of 32 bits, `find_free` is the number of the first clear bit of the bitmap, and -1
-- exactly if all bits are set.
pub find_free_lem :
    (frames : List (List Bool)) → AreWords frames → find_free frames ≡ first_clear (bitmap frames)
unfolding find_free
find_free_lem frames are =
    find_free_from_lem frames 0 are
    ∙ renumber (λ n. 0 * frame_bit + n) (λ n. 0 + n) (first_clear (bitmap frames))
        (λ n. omega arith)
    ∙ identity (first_clear (bitmap frames))

set-left :
    (w rest : List Bool) (n : ℕ) (v : Bool) → n < length w → set w n v ++ rest ≡ set (w ++ rest) n v
set-left [] rest n v h = absurd (omega arith)
set-left (b ∷ w) rest zero v h = refl
set-left (b ∷ w) rest (suc n) v h = ap (λ l. b ∷ l) (set-left w rest n v (omega arith))

next : (a n : ℕ) → suc (a + n) ≡ suc a + n
next a n = omega arith

set-right :
    (w rest : List Bool) (n : ℕ) (v : Bool) → w ++ set rest n v ≡ set (w ++ rest) (length w + n) v
set-right [] rest n v = ap (λ k. set rest k v) (omega arith)
set-right (b ∷ w) rest n v =
    ap (λ l. b ∷ l) (set-right w rest n v) ∙ ap (λ k. set (b ∷ (w ++ rest)) k v) (next (length w) n)

-- the word `k`, and the bitmap with its bit `o` set
set_word :
    (ws : List (List Bool)) (k o : ℕ)
    → AreWords ws
    → o < frame_bit
    → k * frame_bit + o < length (bitmap ws)
    → (w : List Bool) × (get_elem? ws k ≡ some w)
      × (bitmap (set ws k (set w o true)) ≡ set (bitmap ws) (k * frame_bit + o) true)
set_word [] k o are small h = absurd (omega arith)
set_word (w ∷ ws) zero o are small h =
    let e : o ≡ 0 * frame_bit + o = omega arith in
    (
      w,
      refl,
      set-left w (bitmap ws) o true (omega (arith, are.0))
          ∙ ap (λ k. set (w ++ bitmap ws) k true) e,
    )
set_word (w ∷ ws) (suc k) o are small h =
    let (x, at, same) =
      set_word ws k o are.1 small (omega (arith, length-append w (bitmap ws), are.0)) in
    let e : length w + (k * frame_bit + o) ≡ suc k * frame_bit + o = omega (arith, are.0) in
    (
      x,
      at,
      ap (λ l. w ++ l) same
          ∙ set-right w (bitmap ws) (k * frame_bit + o) true
          ∙ ap (λ k. set (w ++ bitmap ws) k true) e,
    )

set_in-some :
    (k o : ℕ) (w : List Bool) (frames : List (List Bool))
    → set_in k o (some w) frames ≡ ok (set frames k (set w o true))
unfolding set_in
set_in-some k o w frames = refl

set_bit-at :
    (addr : ℕ) (frames : List (List Bool)) (w : List Bool)
    → get_elem? frames (addr / page_size / frame_bit) ≡ some w
    → set_bit addr frames
      ≡ ok (set frames (addr / page_size / frame_bit) (set w (addr / page_size % frame_bit) true))
unfolding set_bit
set_bit-at addr frames w e =
    ap (λ o. set_in (addr / page_size / frame_bit) (addr / page_size % frame_bit) o frames) e
    ∙ set_in-some _ _ w frames

length-set : (w : List Bool) (n : ℕ) (v : Bool) → length (set w n v) ≡ length w
length-set [] n v = refl
length-set (b ∷ w) zero v = refl
length-set (b ∷ w) (suc n) v = ap suc (length-set w n v)

AreWords-set :
    (ws : List (List Bool)) (k : ℕ) (w : List Bool)
    → AreWords ws
    → length w ≡ frame_bit
    → AreWords (set ws k w)
AreWords-set [] k w are h = tt
AreWords-set (x ∷ ws) zero w are h = (h, are.1)
AreWords-set (x ∷ ws) (suc k) w are h = (are.0, AreWords-set ws k w are.1 h)

length-word :
    (ws : List (List Bool)) (k : ℕ) (w : List Bool)
    → AreWords ws
    → get_elem? ws k ≡ some w
    → length w ≡ frame_bit
length-word [] k w are at = cc
length-word (x ∷ ws) zero w are at = let e : x ≡ w = cc in rw (sym e) (are.0)
length-word (x ∷ ws) (suc k) w are at = length-word ws k w are.1 at

-- With words of 32 bits, `set_bit` of an address in a frame that the bitmap has sets that frame's
-- bit and no other, and the words keep their 32 bits.
pub set_bit_lem :
    (addr : ℕ) (frames : List (List Bool))
    → AreWords frames
    → addr / page_size < length (bitmap frames)
    → Returns
        (λ frames'.
          (bitmap frames' ≡ set (bitmap frames) (addr / page_size) true) × AreWords frames')
        (set_bit addr frames)
set_bit_lem addr frames are h =
    let k = addr / page_size / frame_bit in
    let o = addr / page_size % frame_bit in
    let e : k * frame_bit + o ≡ addr / page_size = omega arith in
    let small : o < frame_bit = omega arith in
    let (w, at, same) = set_word frames k o are small (omega arith) in
    let whole : length (set w o true) ≡ frame_bit =
      length-set w o true ∙ length-word frames k w are at in
    rw (set_bit-at addr frames w at) (
      returns (
        same ∙ ap (λ n. set (bitmap frames) n true) e,
        AreWords-set frames k (set w o true) are whole,
      ))

first_clear-lt : (bits : List Bool) (n : ℕ) → first_clear bits ≡ some n → n < length bits
unfolding first_clear
first_clear-lt [] n e = cc
first_clear-lt (false ∷ bits) n e = ground arith
first_clear-lt (true ∷ bits) n e = behind (first_clear bits) n e (λ k h. first_clear-lt bits k h)
  where
    behind :
        {l : ℕ} (o : Option ℕ) (n : ℕ)
        → Option.map suc o ≡ some n
        → ((k : ℕ) → o ≡ some k → k < l)
        → n < suc l
    behind none n e below = cc
    behind (some k) n e below = ground (arith, below k refl)

-- what a new frame is: the first free one, or a panic
abbrev pub FrameOutcome : Option ℕ → List Bool → Run (PageEntry × List (List Bool)) → Type 0
FrameOutcome none bits r = r ≡ fault
FrameOutcome (some n) bits r =
    Returns
      (λ (page, frames).
        (page.present ≡ true)
        × (page.writeable ≡ true)
        × (page.usermode ≡ false)
        × (page.frameaddr ≡ n)
        × (bitmap frames ≡ set bits n true)
        × AreWords frames)
      r

frame_taken :
    (page : PageEntry) (frames : List (List Bool))
    → AreWords frames
    → length (bitmap frames) ≤ 2 ^ 20
    → (o : Option ℕ) → ((n : ℕ) → o ≡ some n → n < length (bitmap frames))
    → FrameOutcome o (bitmap frames) (take_frame page frames o)
unfolding take_frame
frame_taken page frames are small none below = refl
frame_taken page frames are small (some n) below =
    let low : n < length (bitmap frames) = below n refl in
    let at : n * page_size % word_mod / page_size ≡ n = omega arith in
    let here : n * page_size % word_mod / page_size < length (bitmap frames) = omega arith in
    Returns-bind (set_bit_lem (n * page_size % word_mod) frames are here) λ frames' (done, are').
      returns (refl, refl, refl, omega arith, done ∙ ap (λ k. set (bitmap frames) k true) at, are')

frame_found :
    (page : PageEntry) (frames : List (List Bool)) (o : Option ℕ)
    → page.frameaddr ≡ 0
    → find_free frames ≡ o
    → new_frame page frames ≡ take_frame page frames o
unfolding new_frame
frame_found page frames o z e = simp z (ap (take_frame page frames) e)

-- For a page without a frame (its number is 0), and a bitmap of 32-bit words for at most 2 ^ 20
-- frames, `new_frame` panics if all frames are in use; else the page is made present and writeable
-- for the kernel, on the first free frame, whose bit is set, no other bit changes, and the words keep
-- their 32 bits.
pub new_frame_lem :
    (page : PageEntry) (frames : List (List Bool))
    → AreWords frames
    → length (bitmap frames) ≤ 2 ^ 20
    → page.frameaddr ≡ 0
    → FrameOutcome (first_clear (bitmap frames)) (bitmap frames) (new_frame page frames)
new_frame_lem page frames are small z =
    rw (frame_found page frames (first_clear (bitmap frames)) z (find_free_lem frames are)) (
      frame_taken page frames are small (first_clear (bitmap frames))
        (λ n e. first_clear-lt (bitmap frames) n e))
