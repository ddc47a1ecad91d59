-- ===== src/Vm/Span.antt =====
-- What the mapping of pages, in vm_init of kernel/core-c.c, leaves of the paging.
use mathlib.Core.Path.{subst}
use mpx.Base.{
  ℕ, zero, suc, ◌+◌, ◌*◌, ◌/◌, ◌%◌, ◌^◌, ◌<◌, ◌≤◌, ◌≡◌, ◌≢◌, refl, ◌∙◌, ap, sym, Bool, true, false,
  some, List, [], ◌∷◌, arith, ◌==◌, length, set,
}
use mpx.Base.Run.{ok, Returns, returns, returned}
use mpx.Vm.{page_size, PageEntry, Paging, find_page, get_page, new_frame}
use mpx.Vm.Frames.{AreWords, bitmap, first_clear, FrameOutcome, new_frame_lem}
use mpx.Vm.Init.{set_page, map_frame}

-- the bitmap whose first `k` frames are in use, of `k + n`
abbrev pub used : (k n : ℕ) → List Bool
used zero zero = []
used zero (suc n) = false ∷ used zero n
used (suc k) n = true ∷ used k n

length-used : (k n : ℕ) → length (used k n) ≡ k + n
length-used zero zero = refl
length-used zero (suc n) = ap suc (length-used zero n) ∙ omega arith
length-used (suc k) n = ap suc (length-used k n) ∙ omega arith

first_clear-used : (k n : ℕ) → first_clear (used k (suc n)) ≡ some k
unfolding first_clear
first_clear-used zero n = refl
first_clear-used (suc k) n = rw (first_clear-used k n) refl

set-used : (k n : ℕ) → set (used k (suc n)) k true ≡ used (suc k) n
set-used zero n = refl
set-used (suc k) n = ap (λ l. true ∷ l) (set-used k n)

-- An entry that maps a page of the kernel to the frame `n`.
pub record Maps (n : ℕ) (e : PageEntry) : Type 0 where
  pub present_at : e.present ≡ true
  pub writeable_at : e.writeable ≡ true
  pub kernel_only : e.usermode ≡ false
  pub frame_at : e.frameaddr ≡ n

-- what one page's mapping, at the entry `a` to the frame `k`, leaves of the paging
pub record Step (a k n : ℕ) (v v' : Paging) : Type 0 where
  pub mapped : Maps k (v'.page a)
  pub pages : (b : ℕ) → b ≢ a → v'.page b ≡ v.page b
  pub rest : v' ≡ record v { page = v'.page; frames = v'.frames }
  pub words : AreWords v'.frames
  pub bits : bitmap v'.frames ≡ used (suc k) n

-- a paging with the first `k` of `k + n` frames in use
pub record HasFrames (k n : ℕ) (v : Paging) : Type 0 where
  pub words : AreWords v.frames
  pub bits : bitmap v.frames ≡ used k n

pub get_page-present :
    (addr : ℕ) (v : Paging)
    → v.tables (addr / page_size / 1024) ≢ 0
    → get_page addr true v ≡ ok (find_page addr v, v)
unfolding get_page
get_page-present addr v ne =
    let here : (v.tables (addr / page_size / 1024) == 0) ≡ false = ground (arith, ne) in
    rw here refl

pub find_page-present :
    (addr : ℕ) (v : Paging)
    → v.tables (addr / page_size / 1024) ≢ 0
    → find_page addr v ≡ v.tables (addr / page_size / 1024) + 4 * (addr / page_size % 1024)
unfolding find_page
find_page-present addr v ne =
    let here : (v.tables (addr / page_size / 1024) == 0) ≡ false = ground (arith, ne) in
    rw here refl

map_frame-run :
    (addr a : ℕ) (v v₁ : Paging) (e : PageEntry) (frames : List (List Bool))
    → get_page addr true v ≡ ok (a, v₁)
    → new_frame (v₁.page a) v₁.frames ≡ ok (e, frames)
    → map_frame addr v ≡ ok (set_page a e (record v₁ { frames = frames }))
unfolding map_frame
map_frame-run addr a v v₁ e frames found made = rw (found, made) refl

-- One page without a frame, in a table that is there.
pub map_frame-Step :
    (addr a k n : ℕ) (v : Paging)
    → get_page addr true v ≡ ok (a, v)
    → (v.page a).frameaddr ≡ 0
    → HasFrames k (suc n) v
    → k + suc n ≤ 2 ^ 20
    → Returns (Step a k n v) (map_frame addr v)
map_frame-Step addr a k n v found blank has small =
    let total : length (bitmap v.frames) ≤ 2 ^ 20 =
      omega (arith, ap length has.bits, length-used k (suc n)) in
    let lowest : first_clear (bitmap v.frames) ≡ some k =
      ap first_clear has.bits ∙ first_clear-used k n in
    let outcome : FrameOutcome (some k) (bitmap v.frames) (new_frame (v.page a) v.frames) =
      subst (λ o. FrameOutcome o (bitmap v.frames) (new_frame (v.page a) v.frames)) lowest
        (new_frame_lem (v.page a) v.frames has.words total blank) in
    let (r, made, (p, w, u, f, b, ws)) = returned outcome in
    let here : (a == a) ≡ true = ground arith in
    rw (map_frame-run addr a v v r.0 r.1 found made) (
      returns (record {
        mapped =
            rw here (record { present_at = p; writeable_at = w; kernel_only = u; frame_at = f });
        pages = λ b ne. let other : (b == a) ≡ false = ground (arith, ne) in rw other refl;
        rest = refl;
        words = ws;
        bits = b ∙ ap (λ l. set l k true) has.bits ∙ set-used k n;
      }))

-- what the mapping of `m` pages from the entry `o` on, of the table at `b`, leaves of the paging: the
-- frames from `k` on, in order
pub record Span (b o m k n : ℕ) (v v' : Paging) : Type 0 where
  pub mapped : (j : ℕ) → j < m → Maps (k + j) (v'.page (b + 4 * (o + j)))
  pub below : (a : ℕ) → a < b + 4 * o → v'.page a ≡ v.page a
  pub above : (a : ℕ) → b + 4 * (o + m) ≤ a → v'.page a ≡ v.page a
  pub rest : v' ≡ record v { page = v'.page; frames = v'.frames }
  pub frames_left : HasFrames (k + m) n v'

pub Span-nil : (b o k n : ℕ) (v : Paging) → HasFrames k n v → Span b o 0 k n v v
Span-nil b o k n v has =
    let e : k ≡ k + 0 = omega arith in
    record {
      mapped = λ j h. absurd (omega arith);
      below = λ a h. refl;
      above = λ a h. refl;
      rest = refl;
      frames_left = subst (λ x. HasFrames x n v) e has;
    }

pub Maps-at : (f : ℕ → PageEntry) (n n' a a' : ℕ) → n ≡ n' → a ≡ a' → Maps n (f a) → Maps n' (f a')
Maps-at f n n' a a' e d h = subst (λ x. Maps x (f a')) e (subst (λ x. Maps n (f x)) d h)

-- the first page, and then the others
mapped_first :
    (b o m k n : ℕ) (v v₁ v₂ : Paging)
    → Step (b + 4 * o) k (m + n) v v₁
    → Span b (o + 1) m (k + 1) n v₁ v₂
    → (j : ℕ) → j < suc m
    → Maps (k + j) (v₂.page (b + 4 * (o + j)))
mapped_first b o m k n v v₁ v₂ s t zero h =
    let kept : v₂.page (b + 4 * o) ≡ v₁.page (b + 4 * o) = t.below (b + 4 * o) (omega arith) in
    Maps-at v₂.page k (k + 0) (b + 4 * o) (b + 4 * (o + 0)) (omega arith) (omega arith)
      (subst (Maps k) (sym kept) s.mapped)
mapped_first b o m k n v v₁ v₂ s t (suc j) h =
    Maps-at v₂.page (k + 1 + j) (k + suc j) (b + 4 * (o + 1 + j)) (b + 4 * (o + suc j))
      (omega arith) (omega arith) (t.mapped j (omega arith))

pub Span-cons :
    (b o m k n : ℕ) (v v₁ v₂ : Paging)
    → Step (b + 4 * o) k (m + n) v v₁
    → Span b (o + 1) m (k + 1) n v₁ v₂
    → Span b o (suc m) k n v v₂
Span-cons b o m k n v v₁ v₂ s t =
    let count : k + 1 + m ≡ k + suc m = omega arith in
    record {
      mapped = mapped_first b o m k n v v₁ v₂ s t;
      below = λ a h. t.below a (omega arith) ∙ s.pages a (λ e. omega (arith, e));
      above = λ a h. t.above a (omega arith) ∙ s.pages a (λ e. omega (arith, e));
      rest = t.rest ∙ ap (λ (x : Paging). record x { page = v₂.page; frames = v₂.frames }) s.rest;
      frames_left = subst (λ x. HasFrames x n v₂) count t.frames_left;
    }

-- the pages from the entry `o` on, `m` of them, have no frame
abbrev pub Blank : (b o m : ℕ) → Paging → Type 0
Blank b o m v = (a : ℕ) → b + 4 * o ≤ a → a < b + 4 * (o + m) → (v.page a).frameaddr ≡ 0
