-- ===== src/Pcb.antt =====
-- kernel/pcb.c and include/mpx/pcb.h: process control blocks in memory and the queues that link
-- them. The fields that the queues do not use (the stack's bytes) are left out; `stack_top` is an
-- address. Loops run on fuel; text sent to the console is returned, in order.
pub mod Queue
pub mod Insert
pub mod Remove
pub mod Order
pub mod Find
pub mod Setup
use Prim.Native.String.{String}
use mpx.Base.{
  ℕ, zero, suc, ◌+◌, ◌-◌, ◌^◌, Bool, true, false, not, ◌&&◌, ◌||◌, Option, none, some, List, [],
  ◌∷◌, ◌++◌, ltb, leb, ◌==◌, if◌then◌else◌, length, set, drop,
}
use mpx.Base.Int.{ℤ, pos, negsuc, ltb_ℤ, eqb_ℤ}
use mpx.Base.Run.{Run, ok, fault, out_of_fuel, ◌>>=◌}
use mpx.CString.{strcmp, strlen}

-- `name` is the bytes from the struct's start up to `class`: the array and two bytes of padding.
pub record Pcb : Type 0 where
  pub name : List ℕ
  pub class : ℤ
  pub priority : ℤ
  pub state : ℤ
  pub stack_top : ℕ
  pub next_pcb : ℕ
  pub prev_pcb : ℕ

-- The blocks by address (0 is NULL), and the heads of the queues.
pub record Queues : Type 0 where
  pub pcb : ℕ → Pcb
  pub ready_head : ℕ
  pub blocked_head : ℕ
  pub suspended_head : ℕ

abbrev pub null : ℕ
null = 0

abbrev pub min_name_len : ℕ
min_name_len = 2

abbrev pub max_name_len : ℕ
max_name_len = 50

abbrev pub user_proc : ℤ
user_proc = pos 1

abbrev pub system_proc : ℤ
system_proc = pos 0

abbrev pub ready_state : ℤ
ready_state = pos 1

abbrev pub blocked_state : ℤ
blocked_state = pos 0

-- SUSPENDED_STATE of kernel/pcb.c; include/mpx/pcb.h has SUSPEND_STATE, another number.
abbrev pub suspended_state : ℤ
suspended_state = negsuc 0

abbrev pub suspend_state : ℤ
suspend_state = pos 2

abbrev pub resume_state : ℤ
resume_state = pos 3

abbrev pub update : (ℕ → Pcb) → ℕ → Pcb → ℕ → Pcb
update f p x q = if p == q then x else f q

-- `p->next_pcb = next`
abbrev pub set_next : (ℕ → Pcb) → ℕ → ℕ → ℕ → Pcb
set_next f p next = update f p (record (f p) { next_pcb = next })

-- `p->state = s`
abbrev pub set_state : ℕ → ℤ → Queues → Queues
set_state p s k = record k { pcb = update k.pcb p (record (k.pcb p) { state = s }) }

-- The queue that `head_ptr` points to in `pcb_insert`.
pub data Head : Type 0 where
  ready blocked suspended : Head

abbrev pub head_of : Head → Queues → ℕ
head_of ready k = k.ready_head
head_of blocked k = k.blocked_head
head_of suspended k = k.suspended_head

abbrev pub set_head : Head → ℕ → Queues → Queues
set_head ready p k = record k { ready_head = p }
set_head blocked p k = record k { blocked_head = p }
set_head suspended p k = record k { suspended_head = p }

-- the `switch` of `pcb_insert`
unfoldable pub insert_head : ℤ → Option Head
insert_head s =
    if eqb_ℤ s ready_state || eqb_ℤ s resume_state
    then some ready
    else if eqb_ℤ s suspended_state
    then some suspended
    else if eqb_ℤ s blocked_state
    then some blocked
    else none

-- The walk of `pcb_insert` from `prev`, and the two writes that follow it.
unfoldable pub insert_behind : ℕ → (curr prev : ℕ) → (ℕ → Pcb) → Run (ℕ → Pcb)
insert_behind zero curr prev f = out_of_fuel
insert_behind (suc fuel) curr prev f =
    let next = (f prev).next_pcb in
    let rest = insert_behind fuel curr next f in
    if not (next == null) && not (ltb_ℤ (f curr).priority (f next).priority)
    then rest
    else ok (set_next (set_next f curr next) prev curr)

unfoldable pub pcb_insert : ℕ → ℕ → Queues → Run Queues
unfolding insert_head insert_behind
pcb_insert fuel curr k = if curr == null then ok k else elim (insert_head (k.pcb curr).state) [
  | none ↦ ok k
  | some hd ↦
      let head = head_of hd k in
      if head == null || ltb_ℤ (k.pcb curr).priority (k.pcb head).priority
      then ok (set_head hd curr (record k { pcb = set_next k.pcb curr head }))
      else (insert_behind fuel curr head k.pcb >>= λ f. ok (record k { pcb = f }))
]

-- The search of `pcb_remove`: the block before `curr`, or NULL.
unfoldable pub find_before : ℕ → (curr current : ℕ) → (ℕ → Pcb) → Run ℕ
find_before zero curr current f = out_of_fuel
find_before (suc fuel) curr current f =
    let rest = find_before fuel curr (f current).next_pcb f in
    if current == null then ok null else if (f current).next_pcb == curr then ok current else rest

-- One branch of `pcb_remove`; `true` is PCB_ERROR.
unfoldable pub remove_from : ℕ → Head → ℕ → Queues → Run (Bool × Queues)
unfolding find_before
remove_from fuel hd curr k =
    if head_of hd k == curr
    then ok (false, set_head hd (k.pcb curr).next_pcb k)
    else (find_before fuel curr (head_of hd k) k.pcb >>= λ current.
        if current == null
        then ok (true, k)
        else ok (false, record k { pcb = set_next k.pcb current (k.pcb curr).next_pcb }))

unfoldable pub pcb_remove : ℕ → ℕ → Queues → Run (Bool × Queues)
unfolding remove_from
pcb_remove fuel curr k =
    if curr == null
    then ok (true, k)
    else if eqb_ℤ (k.pcb curr).state ready_state || eqb_ℤ (k.pcb curr).state resume_state
    then remove_from fuel ready curr k
    else if eqb_ℤ (k.pcb curr).state suspended_state
    then remove_from fuel suspended curr k
    else ok (true, k)

-- A loop of `pcb_find`: the first block of that name from `p` on, or NULL.
unfoldable pub find_from : ℕ → List ℕ → ℕ → (ℕ → Pcb) → Run ℕ
find_from zero name p f = out_of_fuel
find_from (suc fuel) name p f =
    if p == null
    then ok null
    else (strcmp name (f p).name >>= λ r. elim (eqb_ℤ r (pos 0)) [
      | true ↦ ok p
      | false ↦ find_from fuel name (f p).next_pcb f
    ])

-- The block, or NULL, and what is written to the console.
unfoldable pub pcb_find : ℕ → List ℕ → Queues → Run (ℕ × List String)
unfolding find_from
pcb_find fuel name k = find_from fuel name k.ready_head k.pcb >>= λ p.
    if not (p == null)
    then ok (p, [])
    else (find_from fuel name k.suspended_head k.pcb >>= λ q. ok (
      q,
      if q == null && not (k.suspended_head == null)
          then "A PCB with the given name cannot be found. Please try again." ∷ []
          else [],
    ))
