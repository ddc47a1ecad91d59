-- ===== src/Command/Priority.antt =====
-- set_pcb_priority of user/commhand.c.
use Prim.Native.String.{String}
use mathlib.Core.Path.{subst}
use mpx.Base.{
  ℕ, ◌+◌, ◌<◌, ◌≡◌, inl, inr, refl, ◌∙◌, sym, false, ◌||◌, none, some, List, [], ◌∷◌, ◌++◌, arith,
  ◌==◌, if◌then◌else◌, length, drop,
}
use mpx.Base.Int.{ℤ, pos, ltb_ℤ}
use mpx.Base.Run.{Run, ok, fault, ◌>>=◌, Returns, returns, returned}
use mpx.Heap.{Heap}
use mpx.SysMem.{HeapFunctions, sys_alloc_mem}
use mpx.CString.{strtok, strlen, strcpy, atoi}
use mpx.CString.Laws.{NoNul, c_string}
use mpx.Pcb.{Pcb, Queues, null, update, Head, ready, blocked, suspended, pcb_find}
use mpx.Pcb.Queue.{Linked, IsQueue}
use mpx.Pcb.Find.{AreNamed, Finds, pcb_find-FindsQuietly}
use mpx.Command.{Session, say, ask, zeros, separators, invalid_name, send_all, find_pcb}

-- `p->priority = v`
abbrev pub set_priority : ℕ → ℤ → Queues → Queues
set_priority p v k = record k { pcb = update k.pcb p (record (k.pcb p) { priority = v }) }

-- The end of the command: the process is not compared with NULL.
unfoldable pub change_priority : (fuel : ℕ) → List ℕ → ℤ → Session → Run Session
unfolding find_pcb
change_priority fuel name v d = find_pcb fuel (some name) d >>= λ (p, d₁).
    if p == null then fault else ok (record d₁ { queues = set_priority p v d₁.queues })

-- The name's copy is the bytes of the memory it is allotted; a NULL from `strtok` or from the heap
-- is read or written by `strcpy`.
unfoldable pub set_pcb_priority :
    (kmalloc : ℕ → Heap → Run (ℕ × Heap)) → HeapFunctions → (fuel : ℕ) → Session → Run Session
unfolding ask say invalid_name change_priority
set_pcb_priority kmalloc functions fuel d =
    ask "Please enter the name of the PCB: " d >>= λ (buf, d₁).
    strtok (record { bytes = buf; tok_tmp = none }) (some 0) separators >>= λ (copy, t).
    strlen t.bytes >>= λ n. sys_alloc_mem kmalloc functions (n + 1) d₁.serial.heap >>= λ (p, h).
    let d₂ = record d₁ { serial = record (d₁.serial) { heap = h } } in
    elim copy [
      | none ↦ fault
      | some i ↦ (if p == 0 then fault else strcpy (zeros (n + 1)) (drop i t.bytes)) >>= λ name.
          invalid_name (some name) >>= λ bad.
          if bad
          then ok (say "\nInvalid PCB name." d₂)
          else (ask "Please enter the new priority of the PCB: " d₂ >>= λ (line, d₃).
              atoi line >>= λ new_priority.
              if ltb_ℤ new_priority (pos 0) || ltb_ℤ (pos 9) new_priority
              then ok (say "\nInvalid priority, please assign a priority in range 0-9." d₃)
              else change_priority fuel name new_priority d₃)
    ]

set_priority-Linked :
    (f : ℕ → Pcb) (x : ℕ) (v : ℤ) (p : ℕ) (qs : List ℕ)
    → Linked f p qs
    → Linked (update f x (record (f x) { priority = v })) p qs
set_priority-Linked f x v p [] l = l
set_priority-Linked f x v p (q ∷ qs) (same, low, l) =
    let next : (update f x (record (f x) { priority = v }) q).next_pcb ≡ (f q).next_pcb =
      ground arith in
    (same, low, rw next (set_priority-Linked f x v (f q).next_pcb qs l))

set_priority-IsQueue :
    (hd : Head) (p : ℕ) (v : ℤ) (k : Queues) (qs : List ℕ)
    → IsQueue hd k qs
    → IsQueue hd (set_priority p v k) qs
set_priority-IsQueue ready p v k qs is = record {
  linked = set_priority-Linked k.pcb p v k.ready_head qs is.linked;
  distinct = is.distinct;
}
set_priority-IsQueue blocked p v k qs is = record {
  linked = set_priority-Linked k.pcb p v k.blocked_head qs is.linked;
  distinct = is.distinct;
}
set_priority-IsQueue suspended p v k qs is = record {
  linked = set_priority-Linked k.pcb p v k.suspended_head qs is.linked;
  distinct = is.distinct;
}

change_priority-found :
    (fuel p : ℕ) (name : List ℕ) (v : ℤ) (texts : List String) (d : Session)
    → 0 < p
    → texts ≡ []
    → pcb_find fuel name d.queues ≡ ok (p, texts)
    → change_priority fuel name v d ≡ ok (record d { queues = set_priority p v d.queues })
unfolding change_priority find_pcb send_all
change_priority-found fuel p name v texts d low quiet e =
    let here : (p == null) ≡ false = ground arith in rw (e, quiet, here) refl

found_one :
    (name : ℕ → List ℕ) (t : List ℕ) (qs : List ℕ) (p q : ℕ)
    → Finds name t qs p
    → Finds name t qs q
    → p ≡ q
found_one name t [] p q e f = e ∙ sym f
found_one name t (x ∷ qs) p q (inl (_, e)) (inl (_, f)) = e ∙ sym f
found_one name t (x ∷ qs) p q (inl (s, e)) (inr (ne, f)) = absurd (ne s)
found_one name t (x ∷ qs) p q (inr (ne, e)) (inl (s, f)) = absurd (ne s)
found_one name t (x ∷ qs) p q (inr (_, e)) (inr (_, f)) = found_one name t qs p q e f

set_priority-priority : (p : ℕ) (v : ℤ) (k : Queues) → ((set_priority p v k).pcb p).priority ≡ v
set_priority-priority p v k = ground arith

-- The last step of `set_pcb_priority`, for a name that a process of the ready or the suspended queue
-- has (all names being NUL-terminated texts, and the fuel beyond both queues): it returns, and the
-- first process of that name has the new priority, but both queues have their processes in the same
-- order as before.
pub change_priority-IsQueue :
    (fuel : ℕ) (t rest : List ℕ) (v : ℤ) (name : ℕ → List ℕ) (rs ss : List ℕ) (p : ℕ) (d : Session)
    → NoNul t
    → IsQueue ready d.queues rs
    → IsQueue suspended d.queues ss
    → AreNamed d.queues.pcb name (rs ++ ss)
    → length rs < fuel
    → length ss < fuel
    → Finds name t (rs ++ ss) p
    → 0 < p
    → Returns
        (λ d'.
          ((d'.queues.pcb p).priority ≡ v)
          × IsQueue ready d'.queues rs
          × IsQueue suspended d'.queues ss)
        (change_priority fuel (c_string t rest) v d)
change_priority-IsQueue fuel t rest v name rs ss p d plain r s named mr ms finds low =
    let ((q, texts), e, (found, quiet)) =
      returned (pcb_find-FindsQuietly fuel t rest d.queues name rs ss plain r s named mr ms) in
    let same : q ≡ p = found_one name t (rs ++ ss) q p found finds in
    rw
      (change_priority-found fuel q (c_string t rest) v texts d (omega arith) (quiet (omega arith))
        e)
      (returns (
        subst (λ x. ((set_priority q v d.queues).pcb x).priority ≡ v) same
            (set_priority-priority q v d.queues),
        set_priority-IsQueue ready q v d.queues rs r,
        set_priority-IsQueue suspended q v d.queues ss s,
      ))
