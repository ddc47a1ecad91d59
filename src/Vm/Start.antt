-- ===== src/Vm/Start.antt =====
-- What vm_init of kernel/core-c.c leaves: the kernel's memory mapped to itself.
use mathlib.Core.Path.{subst}
use mpx.Base.{
  ℕ, zero, suc, ◌+◌, ◌-◌, ◌*◌, ◌/◌, ◌%◌, ◌^◌, ◌<◌, ◌≤◌, ◌≡◌, ◌≢◌, refl, ◌∙◌, ap, sym, true, false,
  Option, none, arith, ◌==◌,
}
use mpx.Base.Run.{Run, ok, ◌>>=◌, Returns, returns, returned}
use mpx.Vm.{page_size, kheap_base, kheap_size, PageEntry, Paging, find_page, kmalloc}
use mpx.Vm.Init.{page_dir_bytes, empty_page, set_page, make_tables, map_used, map_heap, vm_init}
use mpx.Vm.Mapping.{map_heap-Span, map_used-Span}
use mpx.Vm.Span.{used, Maps, Maps-at, Span, HasFrames, get_page-present, find_page-present}
use mpx.Vm.Tables.{early_kmalloc, get_page-absent, make_tables-first, map_used-first, with_table}

-- the pages that the second loop maps, for memory that is allocated from `start` on
abbrev pub pages_used : (start : ℕ) → ℕ
pages_used start = start / page_size + 23

-- what vm_init leaves, with `total` frames in all; the kernel heap's next block is at `heap_start`
pub record Paged (total start heap_start : ℕ) (v' : Paging) : Type 0 where
  pub heap_ready : v'.heap_is_initialized ≡ true
  pub next_block : v'.heap_addr ≡ heap_start
  pub null_page : (v'.page (find_page 0 v')).present ≡ false
  pub identity :
      (i : ℕ) → 0 < i → i < pages_used start → Maps i (v'.page (find_page (i * page_size) v'))
  pub covers : v'.phys_alloc_addr + 0x10000 ≡ pages_used start * page_size
  pub heap_pages :
      (j : ℕ)
      → j < 16
      → Maps (pages_used start + j) (v'.page (find_page (kheap_base + j * page_size) v'))
  pub frames_used : HasFrames (pages_used start + 16) (total - (pages_used start + 16)) v'

-- the paging before the second loop, with the tables 52 and 0 made
module _ (start : ℕ) (v : Paging) where
  first : ℕ
  first = start / page_size + 1

  heap_table : ℕ
  unfolding first
  heap_table = (first + 3) * page_size

  low_table : ℕ
  unfolding first
  low_table = (first + 5) * page_size

  cleared_dir : Paging
  unfolding first
  cleared_dir = record v {
    phys_alloc_addr = first * page_size + page_dir_bytes;
    tables = λ i. 0;
    tables_phys = λ i. 0;
  }

  tabled : Paging
  unfolding heap_table cleared_dir
  tabled = with_table 52 heap_table cleared_dir

  ready_to_map : Paging
  unfolding low_table tabled
  ready_to_map = with_table 0 low_table tabled

  made_tables :
      v.heap_is_initialized ≡ false
      → page_size ≤ start
      → start ≤ 4000000
      → make_tables kheap_size kheap_base cleared_dir ≡ ok tabled
  unfolding tabled cleared_dir heap_table first
  made_tables early low high =
      make_tables-first 65535 kheap_base 52 _ cleared_dir tabled
        (get_page-absent kheap_base 52 (first + 2) heap_table cleared_dir early refl refl
          (omega arith) (omega arith) (omega arith) (omega arith))
        (omega arith) (omega arith) (omega arith)

  dir_made :
      v.heap_is_initialized ≡ false
      → v.phys_alloc_addr ≡ start
      → page_size ≤ start
      → start ≤ 4000000
      → kmalloc page_dir_bytes true false v
        ≡ ok (
          first * page_size,
          none,
          record v { phys_alloc_addr = first * page_size + page_dir_bytes },
        )
  unfolding first
  dir_made early at low high = early_kmalloc page_dir_bytes start false v early at low (omega arith)

  low_table_made :
      (fuel : ℕ)
      → v.heap_is_initialized ≡ false
      → page_size ≤ start
      → start ≤ 4000000
      → map_used (suc fuel) 0 tabled ≡ map_used (suc fuel) 0 ready_to_map
  unfolding ready_to_map tabled cleared_dir low_table heap_table first
  low_table_made fuel early low high =
      let there : low_table ≢ 0 = omega arith in
      map_used-first fuel (low_table + 0) tabled ready_to_map
        (get_page-absent 0 0 (first + 4) low_table tabled early refl refl (omega arith)
          (omega arith) (omega arith) (omega arith))
        (get_page-present 0 ready_to_map there
          ∙ ap (λ a. ok (a, ready_to_map)) (find_page-present 0 ready_to_map there))
        (omega arith) (omega arith)

  -- the entry of a page in one of the two tables
  page_at :
      (v' : Paging) (t b i : ℕ)
      → v'.tables t ≡ b
      → 0 < b
      → i < 1024
      → find_page ((t * 1024 + i) * page_size) v' ≡ b + 4 * i
  page_at v' t b i is low within =
      let addr = (t * 1024 + i) * page_size in
      let index : addr / page_size / 1024 ≡ t = omega arith in
      let offset : addr / page_size % 1024 ≡ i = omega arith in
      let table : v'.tables (addr / page_size / 1024) ≡ b = ap v'.tables index ∙ is in
      let there : v'.tables (addr / page_size / 1024) ≢ 0 = λ e. omega (arith, e, table) in
      omega (arith, find_page-present addr v' there, table, offset)

  -- the end of vm_init
  finish : Paging → Paging
  finish v₄ = record (set_page (find_page 0 v₄) empty_page v₄) { heap_is_initialized = true }

  vm_init-run :
      (fuel : ℕ) (v₃ v₄ : Paging)
      → v.heap_is_initialized ≡ false
      → v.phys_alloc_addr ≡ start
      → page_size ≤ start
      → start ≤ 4000000
      → map_used (suc fuel) 0 ready_to_map ≡ ok v₃
      → map_heap (kheap_size / page_size) kheap_base v₃ ≡ ok v₄
      → vm_init (suc fuel) v ≡ ok (finish v₄)
  unfolding vm_init finish cleared_dir
  vm_init-run fuel v₃ v₄ early at low high low_pages heap_pages =
      let last : Paging → Run Paging = λ x. ok (finish x) in
      let third : Paging → Run Paging =
        λ x. map_heap (kheap_size / page_size) kheap_base x >>= last in
      let second : Paging → Run Paging = λ x. map_used (suc fuel) 0 x >>= third in
      ap
        (λ (r : Run (ℕ × Option ℕ × Paging)). r >>= λ (_, _, x).
          make_tables kheap_size kheap_base (record x { tables = λ i. 0; tables_phys = λ i. 0 })
          >>= second)
        (dir_made early at low high)
      ∙ ap (λ (r : Run Paging). r >>= second) (made_tables early low high)
      ∙ ap (λ (r : Run Paging). r >>= third) (low_table_made fuel early low high ∙ low_pages)
      ∙ ap (λ (r : Run Paging). r >>= last) heap_pages

  finish-page : (v₄ : Paging) (a : ℕ) → a ≢ find_page 0 v₄ → (finish v₄).page a ≡ v₄.page a
  unfolding finish
  finish-page v₄ a ne =
      let other : (a == find_page 0 v₄) ≡ false = ground (arith, ne) in rw other refl

  finish-null : (v₄ : Paging) (a : ℕ) → a ≡ find_page 0 v₄ → (finish v₄).page a ≡ empty_page
  unfolding finish
  finish-null v₄ a e = let here : (a == find_page 0 v₄) ≡ true = ground (arith, e) in rw here refl

  finish-tables : (v₄ : Paging) → (finish v₄).tables ≡ v₄.tables
  unfolding finish
  finish-tables v₄ = refl

  finish-Paged :
      (total n : ℕ) (v₃ v₄ : Paging)
      → page_size ≤ start
      → start ≤ 4000000
      → n ≡ total - (pages_used start + 16)
      → Span low_table 0 (pages_used start) 0 (16 + n) ready_to_map v₃
      → Span heap_table 0 16 (pages_used start) n v₃ v₄
      → Paged total start v.heap_addr (finish v₄)
  unfolding ready_to_map tabled cleared_dir low_table heap_table first finish
  finish-Paged total n v₃ v₄ low high left s t =
      let k = pages_used start in
      let bl = low_table in
      let bh = heap_table in
      let low_at : v₄.tables 0 ≡ bl =
        ap (λ (x : Paging). x.tables 0) t.rest ∙ ap (λ (x : Paging). x.tables 0) s.rest in
      let heap_at : v₄.tables 52 ≡ bh =
        ap (λ (x : Paging). x.tables 52) t.rest ∙ ap (λ (x : Paging). x.tables 52) s.rest in
      let null_at : find_page 0 v₄ ≡ bl + 4 * 0 =
        page_at v₄ 0 bl 0 low_at (omega arith) (omega arith) in
      let null_there : find_page 0 (finish v₄) ≡ bl + 4 * 0 =
        page_at (finish v₄) 0 bl 0 low_at (omega arith) (omega arith) in
      record {
        heap_ready = refl;
        next_block =
            ap (λ (x : Paging). x.heap_addr) t.rest ∙ ap (λ (x : Paging). x.heap_addr) s.rest;
        null_page =
            ap (λ (e : PageEntry). e.present)
              (finish-null v₄ (find_page 0 (finish v₄)) (null_there ∙ sym null_at));
        identity = λ i lo hi.
            let addr : (0 * 1024 + i) * page_size ≡ i * page_size = omega arith in
            let at : find_page (i * page_size) (finish v₄) ≡ bl + 4 * i =
              ap (λ a. find_page a (finish v₄)) (sym addr)
              ∙ page_at (finish v₄) 0 bl i low_at (omega arith) (omega arith) in
            let kept : (finish v₄).page (bl + 4 * i) ≡ v₃.page (bl + 4 * i) =
              finish-page v₄ (bl + 4 * i) (λ e. omega (arith, e, null_at))
              ∙ t.above (bl + 4 * i) (omega arith) in
            subst (λ a. Maps i ((finish v₄).page a)) (sym at)
              (subst (Maps i) (sym kept) (
                Maps-at v₃.page (0 + i) i (bl + 4 * (0 + i)) (bl + 4 * i) (omega arith)
                  (omega arith) (s.mapped i hi)));
        covers = omega (
          arith,
          ap (λ (x : Paging). x.phys_alloc_addr) t.rest,
          ap (λ (x : Paging). x.phys_alloc_addr) s.rest,
        );
        heap_pages = λ j hi.
            let addr : (52 * 1024 + j) * page_size ≡ kheap_base + j * page_size = omega arith in
            let at : find_page (kheap_base + j * page_size) (finish v₄) ≡ bh + 4 * j =
              ap (λ a. find_page a (finish v₄)) (sym addr)
              ∙ page_at (finish v₄) 52 bh j heap_at (omega arith) (omega arith) in
            let kept : (finish v₄).page (bh + 4 * j) ≡ v₄.page (bh + 4 * j) =
              finish-page v₄ (bh + 4 * j) (λ e. omega (arith, e, null_at)) in
            subst (λ a. Maps (k + j) ((finish v₄).page a)) (sym at)
              (subst (Maps (k + j)) (sym kept) (
                Maps-at v₄.page (k + j) (k + j) (bh + 4 * (0 + j)) (bh + 4 * j) refl (omega arith)
                  (t.mapped j hi)));
        frames_used = record {
          words = t.frames_left.words;
          bits = t.frames_left.bits ∙ ap (used (k + 16)) left;
        };
      }

-- For physical memory that is free and without page entries from `start` on, between 4,096 and
-- 4,000,000, and with 32-bit words in the frame bitmap, all clear, `vm_init` ends, with fuel for 1,024
-- rounds of its unbounded loop, before paging is on. Then every page from the second up to 0x10000
-- bytes beyond the last byte allocated is present and mapped to the frame of its own number; the page
-- of NULL is not present; the 16 pages of the kernel heap are mapped to the frames behind these;
-- exactly those frames are in use, and the kernel heap starts where it did.
pub vm_init-Paged :
    (fuel start total : ℕ) (v : Paging)
    → v.heap_is_initialized ≡ false
    → v.phys_alloc_addr ≡ start
    → page_size ≤ start
    → start ≤ 4000000
    → ((a : ℕ) → start ≤ a → (v.page a).frameaddr ≡ 0)
    → HasFrames 0 total v
    → pages_used start + 16 ≤ total
    → total ≤ 2 ^ 20
    → 1024 ≤ fuel
    → Returns (Paged total start v.heap_addr) (vm_init fuel v)
unfolding ready_to_map tabled cleared_dir low_table heap_table first finish
vm_init-Paged zero start total v early at low high blank has room small enough =
    absurd (omega arith)
vm_init-Paged (suc fuel) start total v early at low high blank has room small enough =
    let k = pages_used start in
    let n = total - (k + 16) in
    let bh = heap_table start v in
    let bl = low_table start v in
    let u = ready_to_map start v in
    let all : total ≡ k + (16 + n) = omega arith in
    let none_before : 0 + k ≡ k = omega arith in
    let (v₃, r₃, s) = returned (
      map_used-Span (suc fuel) bl 0 k 0 (16 + n) u (omega arith) refl (omega arith) (omega arith)
        (λ a lo hi. blank a (omega arith))
        (record { words = has.words; bits = has.bits ∙ ap (used 0) all }) (omega arith)
        (omega arith)) in
    let (v₄, r₄, t) = returned (
      map_heap-Span 52 bh (omega arith) 0 16 k n v₃ (ap (λ (x : Paging). x.tables 52) s.rest)
        (omega arith)
        (λ a lo hi.
          ap (λ (e : PageEntry). e.frameaddr) (s.below a (omega arith)) ∙ blank a (omega arith))
        (subst (λ x. HasFrames x (16 + n) v₃) none_before s.frames_left) (omega arith)) in
    subst (Returns (Paged total start v.heap_addr))
      (sym (vm_init-run start v fuel v₃ v₄ early at low high r₃ r₄))
      (returns (finish-Paged start v total n v₃ v₄ low high refl s t))
