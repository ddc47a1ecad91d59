-- ===== src/SysCall/Request.antt =====
-- The body of case WRITE of kernel/sys_call.c, once and again, for a process that runs while the
-- blocked queue is empty.
use mpx.Base.{ℕ, suc, ◌<◌, ◌≡◌, refl, ◌∙◌, ap, false, some, arith, ◌==◌}
use mpx.Base.Int.{ℤ, ltb_ℤ}
use mpx.Base.Run.{Run, ok, ◌>>=◌}
use mpx.Heap.{Heap}
use mpx.SysMem.{HeapFunctions}
use mpx.Pcb.{
  Pcb, Queues, null, update, set_next, insert_head, insert_behind, pcb_insert, blocked,
  blocked_state,
}
use mpx.Serial.{Serial, write}
use mpx.Serial.Requests.{io_scheduler}
use mpx.SysCall.{Kernel, with_queues, save_running, insert_running, request_case}

-- the running process with its context saved, in the blocked state
abbrev pub waiting_blocks : ℕ → ℕ → (ℕ → Pcb) → ℕ → Pcb
waiting_blocks c g f = update f g (record (f g) { stack_top = c; state = blocked_state })

-- the kernel after a request, with `g` at the blocked queue's head and these blocks
abbrev pub requested : (ℕ → Pcb) → ℕ → Serial → Kernel → Kernel
requested f g port s = record s {
  queues = record (s.queues) { pcb = f; blocked_head = g };
  serial = port;
}

-- the blocks after the first request: `g` is alone in the blocked queue; and after the second, in
-- which it is inserted behind itself
abbrev pub once : ℕ → ℕ → (ℕ → Pcb) → ℕ → Pcb
once c g f = set_next (waiting_blocks c g f) g null

abbrev pub twice : ℕ → ℕ → (ℕ → Pcb) → ℕ → Pcb
twice c g f = set_next (set_next (waiting_blocks c g f) g null) g g

insert_head-blocked : (s : ℤ) → s ≡ blocked_state → insert_head s ≡ some blocked
unfolding insert_head
insert_head-blocked s e = ground arith

waiting_state : (c g : ℕ) (f : ℕ → Pcb) → (waiting_blocks c g f g).state ≡ blocked_state
waiting_state c g f = ground arith

insert_empty :
    (fuel g : ℕ) (k : Queues)
    → 0 < g
    → insert_head (k.pcb g).state ≡ some blocked
    → k.blocked_head ≡ null
    → pcb_insert fuel g k ≡ ok (record k { pcb = set_next k.pcb g null; blocked_head = g })
unfolding pcb_insert
insert_empty fuel g k low st none =
    let here : (g == null) ≡ false = ground arith in rw (here, st, none) refl

insert_behind_self :
    (fuel g : ℕ) (f : ℕ → Pcb)
    → (f g).next_pcb ≡ null
    → insert_behind (suc fuel) g g f ≡ ok (set_next (set_next f g null) g g)
unfolding insert_behind
insert_behind_self fuel g f end = rw end refl

insert_again :
    (fuel g : ℕ) (k : Queues)
    → 0 < g
    → insert_head (k.pcb g).state ≡ some blocked
    → k.blocked_head ≡ g
    → (k.pcb g).next_pcb ≡ null
    → pcb_insert (suc fuel) g k
      ≡ ok (record k { pcb = set_next (set_next k.pcb g null) g g; blocked_head = g })
unfolding pcb_insert
insert_again fuel g k low st first end =
    let here : (g == null) ≡ false = ground arith in
    let equal : ltb_ℤ (k.pcb g).priority (k.pcb g).priority ≡ false = ground arith in
    rw (here, st, first, here, equal, insert_behind_self fuel g k.pcb end) refl

-- the kernel while the running process waits, its context saved
abbrev waiting : ℕ → ℕ → Serial → Kernel → Kernel
waiting c g port s = record s {
  queues = record (s.queues) { pcb = waiting_blocks c g s.queues.pcb };
  serial = port;
}

module _ (kmalloc : ℕ → Heap → Run (ℕ × Heap)) (functions : HeapFunctions) where
  request_case-insert :
      (fuel c g : ℕ) (port : Serial) (s : Kernel)
      → s.global_pcb ≡ g
      → 0 < g
      → io_scheduler kmalloc functions fuel g
          (s.context c).ebx
          (s.context c).ecx
          (s.context c).edx
          write
          s.serial
        ≡ ok port
      → request_case kmalloc functions fuel c write s ≡ (
          pcb_insert fuel g (waiting c g port s).queues >>= λ q.
          ok (with_queues (waiting c g port s) q))
  unfolding request_case save_running insert_running
  request_case-insert fuel c g port s running low served =
      let here : (g == null) ≡ false = ground arith in rw (running, here, served) refl

  pub request_first :
      (fuel c g : ℕ) (port : Serial) (s : Kernel)
      → s.global_pcb ≡ g
      → 0 < g
      → s.queues.blocked_head ≡ null
      → io_scheduler kmalloc functions fuel g
          (s.context c).ebx
          (s.context c).ecx
          (s.context c).edx
          write
          s.serial
        ≡ ok port
      → request_case kmalloc functions fuel c write s
        ≡ ok (requested (once c g s.queues.pcb) g port s)
  request_first fuel c g port s running low none served =
      request_case-insert fuel c g port s running low served
      ∙ ap (λ (r : Run Queues). r >>= λ q. ok (with_queues (waiting c g port s) q))
          (insert_empty fuel g (waiting c g port s).queues low
            (insert_head-blocked _ (waiting_state c g s.queues.pcb)) none)

  pub request_second :
      (fuel c g : ℕ) (port : Serial) (s : Kernel)
      → s.global_pcb ≡ g
      → 0 < g
      → s.queues.blocked_head ≡ g
      → (s.queues.pcb g).next_pcb ≡ null
      → io_scheduler kmalloc functions
          (suc fuel)
          g
          (s.context c).ebx
          (s.context c).ecx
          (s.context c).edx
          write
          s.serial
        ≡ ok port
      → request_case kmalloc functions (suc fuel) c write s
        ≡ ok (requested (twice c g s.queues.pcb) g port s)
  request_second fuel c g port s running low first end served =
      let last : (waiting_blocks c g s.queues.pcb g).next_pcb ≡ null = ground (arith, end) in
      request_case-insert (suc fuel) c g port s running low served
      ∙ ap (λ (r : Run Queues). r >>= λ q. ok (with_queues (waiting c g port s) q))
          (insert_again fuel g (waiting c g port s).queues low
            (insert_head-blocked _ (waiting_state c g s.queues.pcb)) first last)
