-- ===== src/Vm/Mapping.antt =====
-- The mapping of one page after another, in vm_init of kernel/core-c.c.
use mathlib.Core.Path.{subst}
use mpx.Base.{
  ℕ, zero, suc, ◌+◌, ◌*◌, ◌/◌, ◌%◌, ◌^◌, ◌<◌, ◌≤◌, ◌≡◌, ◌≢◌, refl, ◌∙◌, ap, true, false, arith, ltb,
}
use mpx.Base.Run.{ok, ◌>>=◌, Returns, returns, Returns-bind, Returns-mono}
use mpx.Vm.{page_size, word_mod, PageEntry, Paging, find_page}
use mpx.Vm.Init.{map_frame, map_used, map_heap}
use mpx.Vm.Span.{
  Blank, HasFrames, Span, Span-cons, Span-nil, Step, find_page-present, get_page-present,
  map_frame-Step,
}

module _ (t b : ℕ) (low : 0 < b) where
  -- One page of the table at `b`, the table `t`.
  table_page-Step :
      (o m k n : ℕ) (v : Paging)
      → v.tables t ≡ b
      → o < 1024
      → Blank b o (suc m) v
      → HasFrames k (suc n) v
      → k + suc n ≤ 2 ^ 20
      → Returns (Step (b + 4 * o) k n v) (map_frame ((t * 1024 + o) * page_size) v)
  table_page-Step o m k n v is within blank has small =
      let addr = (t * 1024 + o) * page_size in
      let index : addr / page_size / 1024 ≡ t = omega arith in
      let offset : addr / page_size % 1024 ≡ o = omega arith in
      let table : v.tables (addr / page_size / 1024) ≡ b = ap v.tables index ∙ is in
      let there : v.tables (addr / page_size / 1024) ≢ 0 = λ e. omega (arith, e, table) in
      let place : find_page addr v ≡ b + 4 * o =
        omega (arith, find_page-present addr v there, table, offset) in
      map_frame-Step addr (b + 4 * o) k n v
        (get_page-present addr v there ∙ ap (λ a. ok (a, v)) place)
        (blank (b + 4 * o) (omega arith) (omega arith)) has small

  Blank-Step :
      (o m k n : ℕ) (v v₁ : Paging)
      → Step (b + 4 * o) k n v v₁
      → Blank b o (suc m) v
      → Blank b (o + 1) m v₁
  Blank-Step o m k n v v₁ s blank a lo hi =
      ap (λ (e : PageEntry). e.frameaddr) (s.pages a (λ e. omega (arith, e)))
      ∙ blank a (omega arith) (omega arith)

  pub map_heap-Span :
      (o m k n : ℕ) (v : Paging)
      → v.tables t ≡ b
      → o + m ≤ 1024
      → Blank b o m v
      → HasFrames k (m + n) v
      → k + (m + n) ≤ 2 ^ 20
      → Returns (Span b o m k n v) (map_heap m ((t * 1024 + o) * page_size) v)
  unfolding map_heap
  map_heap-Span o zero k n v is within blank has small =
      let e : 0 + n ≡ n = omega arith in
      returns (Span-nil b o k n v (subst (λ x. HasFrames k x v) e has))
  map_heap-Span o (suc m) k n v is within blank has small =
      let more : suc m + n ≡ suc (m + n) = omega arith in
      let next : (t * 1024 + o) * page_size + page_size ≡ (t * 1024 + (o + 1)) * page_size =
        omega arith in
      Returns-bind
        (table_page-Step o m k (m + n) v is (omega arith) blank
          (subst (λ x. HasFrames k x v) more has) (omega arith))
        λ v₁ s.
          let one : suc k ≡ k + 1 = omega arith in
          rw next (
            Returns-mono
              (map_heap-Span (o + 1) m (k + 1) n v₁ (ap (λ (x : Paging). x.tables t) s.rest ∙ is)
                (omega arith) (Blank-Step o m k (m + n) v v₁ s blank)
                (subst (λ x. HasFrames x (m + n) v₁) one
                  (record { words = s.words; bits = s.bits }))
                (omega arith))
              λ v₂ z. Span-cons b o m k n v v₁ v₂ s z)

pub map_used-stop :
    (fuel i : ℕ) (v : Paging)
    → ltb i ((v.phys_alloc_addr + 0x10000) % word_mod) ≡ false
    → map_used (suc fuel) i v ≡ ok v
unfolding map_used
map_used-stop fuel i v e = rw e refl

pub map_used-go :
    (fuel i : ℕ) (v : Paging)
    → ltb i ((v.phys_alloc_addr + 0x10000) % word_mod) ≡ true
    → map_used (suc fuel) i v ≡ (map_frame i v >>= map_used fuel ((i + page_size) % word_mod))
unfolding map_used
map_used-go fuel i v e = rw e refl

-- The second loop of vm_init from the page `o` on, with `m` pages left up to its bound, ends.
pub map_used-Span :
    (fuel b o m k n : ℕ) (v : Paging)
    → 0 < b
    → v.tables 0 ≡ b
    → v.phys_alloc_addr + 0x10000 ≡ (o + m) * page_size
    → o + m ≤ 1024
    → Blank b o m v
    → HasFrames k (m + n) v
    → k + (m + n) ≤ 2 ^ 20
    → m < fuel
    → Returns (Span b o m k n v) (map_used fuel (o * page_size) v)
map_used-Span zero b o m k n v low is bound within blank has small fuelled = absurd (omega arith)
map_used-Span (suc fuel) b o zero k n v low is bound within blank has small fuelled =
    let e : 0 + n ≡ n = omega arith in
    let done : ltb (o * page_size) ((v.phys_alloc_addr + 0x10000) % word_mod) ≡ false =
      ground arith in
    rw (map_used-stop fuel (o * page_size) v done)
      (returns (Span-nil b o k n v (subst (λ x. HasFrames k x v) e has)))
map_used-Span (suc fuel) b o (suc m) k n v low is bound within blank has small fuelled =
    let more : suc m + n ≡ suc (m + n) = omega arith in
    let go : ltb (o * page_size) ((v.phys_alloc_addr + 0x10000) % word_mod) ≡ true = ground arith in
    let next : (o * page_size + page_size) % word_mod ≡ (o + 1) * page_size = omega arith in
    let addr : (0 * 1024 + o) * page_size ≡ o * page_size = omega arith in
    let one : suc k ≡ k + 1 = omega arith in
    let first : Returns (Step (b + 4 * o) k (m + n) v) (map_frame (o * page_size) v) =
      subst (λ x. Returns (Step (b + 4 * o) k (m + n) v) (map_frame x v)) addr
        (table_page-Step 0 b low o m k (m + n) v is (omega arith) blank
          (subst (λ x. HasFrames k x v) more has) (omega arith)) in
    rw (map_used-go fuel (o * page_size) v go, next)
      (Returns-bind first λ v₁ s.
        Returns-mono
          (map_used-Span fuel b (o + 1) m (k + 1) n v₁ low
            (ap (λ (x : Paging). x.tables 0) s.rest ∙ is)
            (omega (arith, ap (λ (x : Paging). x.phys_alloc_addr) s.rest, bound)) (omega arith)
            (Blank-Step 0 b low o m k (m + n) v v₁ s blank)
            (subst (λ x. HasFrames x (m + n) v₁) one (record { words = s.words; bits = s.bits }))
            (omega arith) (omega arith))
          λ v₂ z. Span-cons b o m k n v v₁ v₂ s z)
