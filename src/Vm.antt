-- ===== src/Vm.antt =====
-- The page frames and the early allocator of kernel/core-c.c: alloc, get_page, kmalloc, find_free,
-- set_bit and new_frame. A word of the bitmap is the list of its 32 bits, bit 0 first; page tables
-- and their entries are known by address.
pub mod Frames
pub mod Init
pub mod Span
pub mod Mapping
pub mod Tables
pub mod Start
use mpx.Base.{
  ℕ, zero, suc, ◌+◌, ◌-◌, ◌*◌, ◌/◌, ◌%◌, ◌^◌, Bool, true, false, not, ◌&&◌, Option, none, some,
  List, [], ◌∷◌, ltb, ◌==◌, if◌then◌else◌, set, get_elem?,
}
use mpx.Base.Run.{Run, ok, fault, ◌>>=◌}

abbrev pub page_size : ℕ
page_size = 4096

abbrev pub frame_bit : ℕ
frame_bit = 32

abbrev pub kheap_base : ℕ
kheap_base = 0xd000000

abbrev pub kheap_size : ℕ
kheap_size = 0x10000

abbrev pub word_mod : ℕ
word_mod = 2 ^ 32

pub record PageEntry : Type 0 where
  pub present : Bool
  pub writeable : Bool
  pub usermode : Bool
  pub frameaddr : ℕ

-- `tables` by index, 0 for NULL; `page` by the entry's address.
pub record Paging : Type 0 where
  pub frames : List (List Bool)
  pub tables : ℕ → ℕ
  pub tables_phys : ℕ → ℕ
  pub page : ℕ → PageEntry
  pub phys_alloc_addr : ℕ
  pub heap_addr : ℕ
  pub heap_is_initialized : Bool

-- `alloc`; the panic of a full heap is a fault.
unfoldable pub alloc : ℕ → Paging → Run (ℕ × Paging)
alloc size v =
    let heap_addr = (v.heap_addr + size) % word_mod in
    if ltb (kheap_base + kheap_size) heap_addr
    then fault
    else ok (v.heap_addr, record v { heap_addr = heap_addr })

-- `get_page` up to the creation of a table: the entry's address, or NULL.
unfoldable pub find_page : ℕ → Paging → ℕ
find_page addr v =
    let table = v.tables (addr / page_size / 1024) in
    if table == 0 then 0 else table + 4 * (addr / page_size % 1024)

-- The address, and what is stored through `phys_addr` where that is not NULL.
unfoldable pub kmalloc : ℕ → (page_align wanted : Bool) → Paging → Run (ℕ × Option ℕ × Paging)
unfolding alloc find_page
kmalloc size page_align wanted v =
    if v.heap_is_initialized
    then (alloc size v >>= λ (addr, v₁).
        if not wanted
        then ok (addr, none, v₁)
        else if find_page addr v₁ == 0
        then fault
        else ok (
          addr,
          some (((v₁.page (find_page addr v₁)).frameaddr * 4096 + addr % 4096) % word_mod),
          v₁,
        ))
    else (let p = v.phys_alloc_addr in
        let addr =
          if page_align && not (p / 4096 == 0) then (p / 4096 * 4096 + 4096) % word_mod else p in
        ok (
          addr,
          (if wanted then some addr else none),
          record v { phys_alloc_addr = (addr + size) % word_mod },
        ))

-- `phys_addr | 0x7`
abbrev pub with_flags : ℕ → ℕ
with_flags a = a / 8 * 8 + 7

unfoldable pub get_page : ℕ → (make_table : Bool) → Paging → Run (ℕ × Paging)
unfolding find_page kmalloc
get_page addr make_table v =
    let index = addr / page_size / 1024 in
    if not (v.tables index == 0)
    then ok (find_page addr v, v)
    else if not make_table
    then ok (0, v)
    else (kmalloc 4096 true true v >>= λ (table, phys, v₁).
        let v₂ = record v₁ {
          tables = λ i. if i == index then table else v₁.tables i;
          tables_phys = λ i.
              if i == index
              then with_flags (elim phys [ none ↦ 0 | some a ↦ a ])
              else v₁.tables_phys i;
        } in
        ok (table + 4 * (addr / page_size % 1024), v₂))

-- The inner loop of `find_free`, from bit `j` on.
unfoldable pub find_bit : List Bool → ℕ → Option ℕ
find_bit [] j = none
find_bit (b ∷ bits) j = if b then find_bit bits (j + 1) else some j

-- `frames[i] == 0xFFFFFFFF`
unfoldable pub is_full : List Bool → Bool
is_full [] = true
is_full (b ∷ bits) = b && is_full bits

-- `find_free` from word `i` on; `none` is the result -1.
unfoldable pub find_free_from : List (List Bool) → ℕ → Option ℕ
unfolding find_bit is_full
find_free_from [] i = none
find_free_from (w ∷ ws) i =
    let rest = find_free_from ws (i + 1) in
    if is_full w
    then rest
    else elim (find_bit w 0) [ none ↦ rest | some j ↦ some (i * frame_bit + j) ]

unfoldable pub find_free : List (List Bool) → Option ℕ
unfolding find_free_from
find_free frames = find_free_from frames 0

-- `set_bit`'s write of bit `offset` of the word at `index`; beyond the array it is a stray write.
unfoldable pub set_in :
    (index offset : ℕ) → Option (List Bool) → List (List Bool) → Run (List (List Bool))
set_in index offset none frames = fault
set_in index offset (some w) frames = ok (set frames index (set w offset true))

unfoldable pub set_bit : ℕ → List (List Bool) → Run (List (List Bool))
unfolding set_in
set_bit addr frames =
    let frame = addr / page_size in
    set_in (frame / frame_bit) (frame % frame_bit) (get_elem? frames (frame / frame_bit)) frames

-- `new_frame` behind `find_free`; `frameaddr` has 20 bits. The panic is a fault.
unfoldable pub take_frame :
    PageEntry → List (List Bool) → Option ℕ → Run (PageEntry × List (List Bool))
take_frame page frames none = fault
take_frame page frames (some index) = set_bit (index * page_size % word_mod) frames >>= λ frames'.
    ok (
      record page {
        present = true;
        frameaddr = index % 2 ^ 20;
        writeable = true;
        usermode = false;
      },
      frames',
    )

unfoldable pub new_frame : PageEntry → List (List Bool) → Run (PageEntry × List (List Bool))
new_frame page frames =
    if not (page.frameaddr == 0)
    then ok (page, frames)
    else take_frame page frames (find_free frames)
