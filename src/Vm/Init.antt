-- ===== src/Vm/Init.antt =====
-- `vm_init` of kernel/core-c.c: the page directory and the first mappings. The loads of the
-- processor's control registers are left out.
use mpx.Base.{ℕ, zero, suc, ◌+◌, ◌/◌, ◌%◌, true, false, ltb, ◌==◌, if◌then◌else◌}
use mpx.Base.Run.{Run, ok, out_of_fuel, ◌>>=◌}
use mpx.Vm.{
  page_size, kheap_base, kheap_size, word_mod, PageEntry, Paging, find_page, kmalloc, get_page,
  new_frame,
}

-- `sizeof(page_dir)`
abbrev pub page_dir_bytes : ℕ
page_dir_bytes = 8192

abbrev pub empty_page : PageEntry
empty_page = record { present = false; writeable = false; usermode = false; frameaddr = 0 }

abbrev pub set_page : ℕ → PageEntry → Paging → Paging
set_page a entry v = record v { page = λ p. if p == a then entry else v.page p }

-- the first loop, from `i` on: a page table for every address
unfoldable pub make_tables : (rounds i : ℕ) → Paging → Run Paging
unfolding get_page
make_tables zero i v = ok v
make_tables (suc n) i v = get_page i true v >>= λ (_, v₁). make_tables n (i + 1) v₁

-- `new_frame(get_page(i, kdir, 1))`
unfoldable pub map_frame : ℕ → Paging → Run Paging
unfolding get_page new_frame
map_frame i v = get_page i true v >>= λ (a, v₁).
    new_frame (v₁.page a) v₁.frames >>= λ (entry, frames).
    ok (set_page a entry (record v₁ { frames = frames }))

-- The second loop, whose bound may grow while it runs; the sums wrap.
unfoldable pub map_used : (fuel i : ℕ) → Paging → Run Paging
unfolding map_frame
map_used zero i v = out_of_fuel
map_used (suc fuel) i v =
    let rest = map_frame i v >>= map_used fuel ((i + page_size) % word_mod) in
    if ltb i ((v.phys_alloc_addr + 0x10000) % word_mod) then rest else ok v

-- the third loop, from `i` on
unfoldable pub map_heap : (rounds i : ℕ) → Paging → Run Paging
unfolding map_frame
map_heap zero i v = ok v
map_heap (suc n) i v = map_frame i v >>= map_heap n (i + page_size)

unfoldable pub vm_init : (fuel : ℕ) → Paging → Run Paging
unfolding make_tables map_used map_heap find_page kmalloc
vm_init fuel v = kmalloc page_dir_bytes true false v >>= λ (_, _, v₁).
    make_tables kheap_size kheap_base (record v₁ { tables = λ i. 0; tables_phys = λ i. 0 })
    >>= λ v₂. map_used fuel 0 v₂ >>= λ v₃. map_heap (kheap_size / page_size) kheap_base v₃ >>= λ v₄.
        ok (record (set_page (find_page 0 v₄) empty_page v₄) { heap_is_initialized = true })
