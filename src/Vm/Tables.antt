-- ===== src/Vm/Tables.antt =====
-- The page tables that the first loops of vm_init make, in kernel/core-c.c.
use mpx.Base.{
  ℕ, zero, suc, ◌+◌, ◌*◌, ◌/◌, ◌%◌, ◌^◌, ◌<◌, ◌≤◌, ◌≡◌, ◌≢◌, refl, ◌∙◌, ap, sym, Bool, true, false,
  none, some, arith, ltb, ◌==◌, if◌then◌else◌,
}
use mpx.Base.Run.{Run, ok, ◌>>=◌}
use mpx.Vm.{page_size, word_mod, with_flags, Paging, kmalloc, get_page}
use mpx.Vm.Init.{make_tables, map_frame, map_used}
use mpx.Vm.Mapping.{map_used-go}
use mpx.Vm.Span.{get_page-present}

-- before paging, an aligned allocation behind the first page
pub early_kmalloc :
    (size p : ℕ) (wanted : Bool) (v : Paging)
    → v.heap_is_initialized ≡ false
    → v.phys_alloc_addr ≡ p
    → page_size ≤ p
    → p + page_size + size < word_mod
    → kmalloc size true wanted v
      ≡ ok (
        (p / page_size + 1) * page_size,
        (if wanted then some ((p / page_size + 1) * page_size) else none),
        record v { phys_alloc_addr = (p / page_size + 1) * page_size + size },
      )
unfolding kmalloc
early_kmalloc size p wanted v early at low high =
    let behind : (p / 4096 == 0) ≡ false = ground arith in
    let addr : (p / 4096 * 4096 + 4096) % word_mod ≡ (p / page_size + 1) * page_size =
      omega arith in
    let end : ((p / page_size + 1) * page_size + size) % word_mod
        ≡ (p / page_size + 1) * page_size + size =
      omega arith in
    rw (early, at, behind, addr, end) refl

-- the paging once the table `t` is made at `b`
abbrev pub with_table : (t b : ℕ) → Paging → Paging
with_table t b v = record v {
  phys_alloc_addr = b + page_size;
  tables = λ i. if i == t then b else v.tables i;
  tables_phys = λ i. if i == t then with_flags b else v.tables_phys i;
}

-- A table that is not there is made, a page behind the last allocation.
pub get_page-absent :
    (addr t q table : ℕ) (v : Paging)
    → v.heap_is_initialized ≡ false
    → addr / page_size / 1024 ≡ t
    → v.tables t ≡ 0
    → v.phys_alloc_addr ≡ q * page_size
    → table ≡ (q + 1) * page_size
    → 1 ≤ q
    → q + 2 < 2 ^ 20
    → get_page addr true v ≡ ok (table + 4 * (addr / page_size % 1024), with_table t table v)
unfolding get_page
get_page-absent addr t q table v early index missing at is low high =
    let addr_is : (q * page_size / page_size + 1) * page_size ≡ table = omega (arith, is) in
    let none_yet : (v.tables t == 0) ≡ true = ground (arith, missing) in
    let made = early_kmalloc 4096 (q * page_size) true v early at (omega arith) (omega arith) in
    rw (index, none_yet, made, addr_is) refl

-- the rounds of the first loop that find the table
make_tables-present :
    (n i t : ℕ) (v : Paging)
    → v.tables t ≢ 0
    → t * 4194304 ≤ i
    → i + n ≤ (t + 1) * 4194304
    → make_tables n i v ≡ ok v
unfolding make_tables
make_tables-present zero i t v there lo hi = refl
make_tables-present (suc n) i t v there lo hi =
    let index : i / page_size / 1024 ≡ t = omega arith in
    let here : v.tables (i / page_size / 1024) ≢ 0 = λ e. there (ap v.tables (sym index) ∙ e) in
    rw (get_page-present i v here)
      (make_tables-present n (i + 1) t v there (omega arith) (omega arith))

make_tables-step :
    (n i : ℕ) (v : Paging)
    → make_tables (suc n) i v ≡ (get_page i true v >>= λ (a, v₁). make_tables n (i + 1) v₁)
unfolding make_tables
make_tables-step n i v = refl

pub make_tables-first :
    (n i t a : ℕ) (v v₁ : Paging)
    → get_page i true v ≡ ok (a, v₁)
    → v₁.tables t ≢ 0
    → t * 4194304 ≤ i
    → i + suc n ≤ (t + 1) * 4194304
    → make_tables (suc n) i v ≡ ok v₁
make_tables-first n i t a v v₁ made there lo hi =
    make_tables-step n i v
    ∙ ap (λ (r : Run (ℕ × Paging)). r >>= λ (_, x). make_tables n (i + 1) x) made
    ∙ make_tables-present n (i + 1) t v₁ there (omega arith) (omega arith)

-- The first page makes its table; the loop goes on as if that had been there.
pub map_used-first :
    (fuel a : ℕ) (v v₁ : Paging)
    → get_page 0 true v ≡ ok (a, v₁)
    → get_page 0 true v₁ ≡ ok (a, v₁)
    → v.phys_alloc_addr + 0x10000 < word_mod
    → v₁.phys_alloc_addr + 0x10000 < word_mod
    → map_used (suc fuel) 0 v ≡ map_used (suc fuel) 0 v₁
unfolding map_frame
map_used-first fuel a v v₁ made found s s₁ =
    let go : ltb 0 ((v.phys_alloc_addr + 0x10000) % word_mod) ≡ true = ground arith in
    let go₁ : ltb 0 ((v₁.phys_alloc_addr + 0x10000) % word_mod) ≡ true = ground arith in
    let same : map_frame 0 v ≡ map_frame 0 v₁ = rw (made, found) refl in
    map_used-go fuel 0 v go
    ∙ ap (λ (r : Run Paging). r >>= map_used fuel ((0 + page_size) % word_mod)) same
    ∙ sym (map_used-go fuel 0 v₁ go₁)
