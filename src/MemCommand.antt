-- ===== src/MemCommand.antt =====
-- The `mem` command of user/mem.c. `printf` and `htoi`, which the repository does not have, are its
-- calls' arguments and a parameter; a call of `printf` is a value of `Printed`.
pub mod Listing
use mpx.Base.{
  ℕ, zero, suc, ◌+◌, ◌-◌, ◌^◌, ◌%◌, Bool, true, false, not, ◌&&◌, ◌||◌, List, [], ◌∷◌, ◌++◌, ◌==◌,
  if◌then◌else◌, length, get_elem?, drop, Option, none, some,
}
use Prim.Native.String.{String}
use mpx.Base.Int.{ℤ, pos, negsuc, eqb_ℤ}
use mpx.Base.Run.{Run, ok, fault, out_of_fuel, ◌>>=◌}
use mpx.Base.Text.{with_nul}
use mpx.CString.{atoi, strcmp}
use mpx.Heap.{
  Heap, null, size_mod, start, mcb_size, mcb_isfree, mcb_next, allocate_memory, free_memory,
}

pub data Printed : Type 0 where
  kind : (free : Bool) → Printed
  block : (address size : ℕ) → Printed
  allocated failed : (size : ℕ) → Printed
  placed : (size address : ℕ) → Printed
  kept : (address : ℕ) → Printed
  usage : Printed

pub data Show : Type 0 where
  all allocated_blocks free_blocks : Show

-- `which == ALL`, and whether a block is shown
abbrev pub is_all : Show → Bool
is_all all = true
is_all _ = false

abbrev pub is_shown : Show → (free : Bool) → Bool
is_shown all free = true
is_shown allocated_blocks free = not free
is_shown free_blocks free = free

-- the body of `mem_show`'s loop
unfoldable pub show_block : Show → (word mcb : ℕ) → List Printed
show_block which word mcb =
    (if is_all which then kind (mcb_isfree word) ∷ [] else [])
    ++ (if is_shown which (mcb_isfree word) then block (start mcb) (mcb_size word) ∷ [] else [])

unfoldable pub show_loop : (fuel : ℕ) → Show → ℕ → Heap → Run (List Printed)
unfolding show_block
show_loop zero which mcb h = out_of_fuel
show_loop (suc fuel) which mcb h =
    let rest = mcb_next h.word mcb >>= λ next. show_loop fuel which next h in
    if mcb == null
    then ok []
    else (rest >>= λ printed. ok (show_block which (h.word mcb) mcb ++ printed))

unfoldable pub mem_show : (fuel : ℕ) → Show → Heap → Run (List Printed)
mem_show fuel which h = show_loop fuel which h.memlist h

-- `size_t sz = atoi(...)`
abbrev pub to_size : ℤ → ℕ
to_size (pos n) = n % size_mod
to_size (negsuc n) = (size_mod - (n + 1)) % size_mod

-- The loop of `mem_alloc` over the arguments left: whether it failed, what it printed, the heap.
unfoldable pub mem_alloc : (fuel : ℕ) → List (List ℕ) → Heap → Run (Bool × List Printed × Heap)
mem_alloc fuel [] h = ok (false, [], h)
mem_alloc fuel (arg ∷ args) h = atoi arg >>= λ number.
    let sz = to_size number in
    allocate_memory fuel sz h >>= λ (ptr, h₁).
    if ptr == null
    then ok (true, failed sz ∷ [], h₁)
    else (mem_alloc fuel args h₁ >>= λ (bad, printed, h₂). ok (bad, placed sz ptr ∷ printed, h₂))

module _ (htoi : List ℕ → ℕ) where
  unfoldable pub mem_free : (fuel : ℕ) → List (List ℕ) → Heap → Run (Bool × List Printed × Heap)
  mem_free fuel [] h = ok (false, [], h)
  mem_free fuel (arg ∷ args) h = free_memory fuel (htoi arg) h >>= λ (missing, h₁).
      if missing then ok (true, kept (htoi arg) ∷ [], h₁) else mem_free fuel args h₁

  -- `!strcmp(argv[1], text)`
  unfoldable pub is_option : List ℕ → String → Run Bool
  is_option arg text = strcmp arg (with_nul text) >>= λ r. ok (eqb_ℤ r (pos 0))

  -- The arguments behind the command's own name. The result is 1 where the first value says so.
  unfoldable pub mem : (fuel : ℕ) → List (List ℕ) → Heap → Run (Bool × List Printed × Heap)
  unfolding mem_show mem_alloc mem_free is_option
  mem fuel [] h = mem_show fuel all h >>= λ printed. ok (false, printed, h)
  mem fuel (option ∷ args) h = is_option option "-a" >>= λ a. is_option option "-f" >>= λ f.
      is_option option "-A" >>= λ alloc. is_option option "-F" >>= λ free.
      if a && length args == 0
      then (mem_show fuel allocated_blocks h >>= λ printed. ok (false, printed, h))
      else if f && length args == 0
      then (mem_show fuel free_blocks h >>= λ printed. ok (false, printed, h))
      else if alloc
      then mem_alloc fuel args h
      else if free
      then mem_free fuel args h
      else ok (true, usage ∷ [], h)
