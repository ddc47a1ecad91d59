-- ===== src/Heap.antt =====
-- The heap manager of lib/mem.c and include/memory.h: memory control blocks laid end to end, each a
-- header word (its size, with FREE in bit 0 and END in bit 1) and the bytes behind it.
pub mod Blocks
pub mod Alloc
pub mod Free
pub mod Release
pub mod Layout
pub mod Client
pub mod Twice
use mpx.Base.{
  ℕ, zero, suc, ◌+◌, ◌-◌, ◌*◌, ◌/◌, ◌%◌, ◌^◌, Bool, true, false, not, ◌&&◌, ltb, leb, ◌==◌,
  if◌then◌else◌,
}
use mpx.Base.Run.{Run, ok, fault, out_of_fuel, ◌>>=◌}

-- `memlist` and the header words by address; address 0 is NULL, and the structs start above it.
pub record Heap : Type 0 where
  pub memlist : ℕ
  pub word : ℕ → ℕ

abbrev pub null : ℕ
null = 0

-- `sizeof(struct mcb)` on the 32-bit target
abbrev pub header_bytes : ℕ
header_bytes = 4

abbrev pub size_mod : ℕ
size_mod = 2 ^ 32

-- size_t addition and subtraction
abbrev pub add_size : ℕ → ℕ → ℕ
add_size a b = (a + b) % size_mod

abbrev pub sub_size : ℕ → ℕ → ℕ
sub_size a b = (a + size_mod - b) % size_mod

abbrev pub write : (ℕ → ℕ) → ℕ → ℕ → ℕ → ℕ
write f a v x = if a == x then v else f x

-- the macro `roundup`: `s & (END|FREE)` is `s % 4`, and `s & ~(END|FREE)` is `s / 4 * 4`
abbrev pub roundup : ℕ → ℕ
roundup s = if s % 4 == 0 then s else add_size (s / 4 * 4) 4

-- the macros on a header word
abbrev pub mcb_size : ℕ → ℕ
mcb_size w = w / 4 * 4

abbrev pub mcb_isfree : ℕ → Bool
mcb_isfree w = w % 2 == 1

abbrev pub mcb_isend : ℕ → Bool
mcb_isend w = w / 2 % 2 == 1

abbrev pub mcb_setfree : ℕ → ℕ
mcb_setfree w = if mcb_isfree w then w else w + 1

abbrev pub mcb_clrfree : ℕ → ℕ
mcb_clrfree w = if mcb_isfree w then w - 1 else w

-- `mcb_copyend(m, n)` on the words of `m` and `n`
abbrev pub mcb_copyend : ℕ → ℕ → ℕ
mcb_copyend w n = if mcb_isend n && not (mcb_isend w) then w + 2 else w

-- `mcb->start`
abbrev pub start : ℕ → ℕ
start mcb = mcb + header_bytes

-- `mcb_next`: reading through NULL is a page fault.
pub mcb_next : (ℕ → ℕ) → ℕ → Run ℕ
mcb_next word mcb =
    if mcb == null
    then fault
    else ok (if mcb_isend (word mcb) then null else start mcb + mcb_size (word mcb))

-- `initialize_heap`, given the address that `kmalloc` returned
unfoldable pub initialize_heap : (kmalloc : ℕ → ℕ) → ℕ → (ℕ → ℕ) → Heap
initialize_heap kmalloc sz word =
    let size = roundup sz in
    let memlist = kmalloc (add_size size header_bytes) in
    record { memlist = memlist; word = write word memlist (size + 3) }

-- The block of `allocate_memory`'s loop that fits: it is split if what is left holds a header and
-- more, and its FREE bit is cleared.
pub take_block : ℕ → ℕ → (ℕ → ℕ) → ℕ → ℕ
take_block sz mcb word =
    let w = word mcb in
    let newfree = start mcb + sz in
    let split =
      write
        (write word newfree
          (mcb_copyend (mcb_setfree (sub_size (sub_size (mcb_size w) sz) header_bytes)) w))
        mcb sz in
    let word' = if ltb (add_size sz header_bytes) (mcb_size w) then split else word in
    write word' mcb (mcb_clrfree (word' mcb))

-- The loop of `allocate_memory`: the address of the block, or NULL.
pub allocate_loop : ℕ → ℕ → ℕ → Heap → Run (ℕ × Heap)
allocate_loop zero sz mcb h = out_of_fuel
allocate_loop (suc fuel) sz mcb h =
    if mcb == null
    then ok (null, h)
    else if leb sz (mcb_size (h.word mcb)) && mcb_isfree (h.word mcb)
    then ok (start mcb, record h { word = take_block sz mcb h.word })
    else (mcb_next h.word mcb >>= λ next. allocate_loop fuel sz next h)

pub allocate_memory : ℕ → ℕ → Heap → Run (ℕ × Heap)
unfolding allocate_loop mcb_next take_block
allocate_memory fuel sz h = allocate_loop fuel (roundup sz) h.memlist h

-- `x->size += mcb_size(y) + sizeof(*y); mcb_copyend(x, y)`
pub merge : (x y : ℕ) → (ℕ → ℕ) → ℕ → ℕ
merge x y word =
    write word x
      (mcb_copyend (add_size (word x) (add_size (mcb_size (word y)) header_bytes)) (word y))

-- The two tests of `free_memory`: a pointer is NULL, or is read.
pub join_next : (mcb next : ℕ) → (ℕ → ℕ) → ℕ → ℕ
join_next mcb next word =
    if not (next == null) && mcb_isfree (word next) then merge mcb next word else word

pub join_prev : (prev mcb : ℕ) → (ℕ → ℕ) → ℕ → ℕ
join_prev prev mcb word =
    if not (prev == null) && mcb_isfree (word prev) then merge prev mcb word else word

-- The body of `free_memory`'s loop for the block that is found: it joins the next block and the one
-- before, where those are free.
pub release_block : (prev mcb next : ℕ) → (ℕ → ℕ) → ℕ → ℕ
unfolding join_next join_prev merge
release_block prev mcb next word =
    join_prev prev mcb (join_next mcb next (write word mcb (mcb_setfree (word mcb))))

-- The loop of `free_memory`: `false` is the result 0, `true` is -1.
pub free_loop : ℕ → (ptr prev mcb next : ℕ) → Heap → Run (Bool × Heap)
free_loop zero ptr prev mcb next h = out_of_fuel
free_loop (suc fuel) ptr prev mcb next h =
    if mcb == null
    then ok (true, h)
    else if start mcb == ptr && not (mcb_isfree (h.word mcb))
    then ok (false, record h { word = release_block prev mcb next h.word })
    else (mcb_next h.word next >>= λ next'. free_loop fuel ptr mcb next next' h)

pub free_memory : ℕ → ℕ → Heap → Run (Bool × Heap)
unfolding free_loop mcb_next release_block
free_memory fuel ptr h =
    mcb_next h.word h.memlist >>= λ next. free_loop fuel ptr null h.memlist next h
