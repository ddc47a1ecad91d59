-- ===== src/Pcb/Setup/Valid.antt =====
-- What pcb_setup of kernel/pcb.c makes of valid arguments.
use mathlib.Core.Path.{subst}
use mpx.Base.{
  ℕ, suc, ◌+◌, ◌<◌, ◌≤◌, ◌≡◌, ◌≢◌, refl, ◌∙◌, ap, sym, inl, inr, true, false, not, ◌||◌, ◌&&◌, some,
  List, [], ◌∷◌, ◌++◌, arith, ltb, ◌==◌, length, drop,
}
use Prim.Native.String.{String}
use mpx.Base.Int.{ℤ, pos, negsuc, ltb_ℤ, eqb_ℤ}
use mpx.Base.Run.{Run, ok, Returns, returns, returned}
use mpx.Heap.{Heap}
use mpx.SysMem.{HeapFunctions, sys_alloc_mem}
use mpx.CString.Laws.{NoNul, c_string, strlen_lem, memcpy-nul}
use mpx.Pcb.{
  Pcb, Queues, null, min_name_len, max_name_len, user_proc, system_proc, ready_state, ready,
  suspended, update, pcb_find,
}
use mpx.Pcb.Queue.{has, IsQueue, Linked-frame}
use mpx.Pcb.Find.{AreNamed, Finds, pcb_find-Finds}
use mpx.Pcb.Setup.{
  Processes, with_pcb, pcb_bytes, stack_offset, pcb_allocate, bad_arguments, fill_pcb, pcb_setup,
}

-- The ready queue is `rs` and the suspended one `ss`, of different processes, called by `name`.
pub record Named (k : Queues) (name : ℕ → List ℕ) (rs ss : List ℕ) : Type 0 where
  pub ready_queue : IsQueue ready k rs
  pub suspended_queue : IsQueue suspended k ss
  pub names : AreNamed k.pcb name (rs ++ ss)
  pub apart : (q : ℕ) → has q ss ≡ true → has q rs ≡ false

pub has-append : (a : ℕ) (xs ys : List ℕ) → has a (xs ++ ys) ≡ (has a xs || has a ys)
has-append a [] ys = refl
has-append a (x ∷ xs) ys = ground (arith, has-append a xs ys)

pub AreNamed-frame :
    (f g : ℕ → Pcb) (name name' : ℕ → List ℕ) (qs : List ℕ)
    → ((q : ℕ) → has q qs ≡ true → ((g q).name ≡ (f q).name) × (name' q ≡ name q))
    → AreNamed f name qs
    → AreNamed g name' qs
AreNamed-frame f g name name' [] same h = tt
AreNamed-frame f g name name' (q ∷ qs) same ((plain, (rest, e)), h) =
    let (b, n) = same q (ground arith) in
    (
      (rw n plain, (rest, b ∙ e ∙ ap (λ t. c_string t rest) (sym n))),
      AreNamed-frame f g name name' qs (λ a i. same a (ground (arith, i))) h,
    )

pub IsQueue-frame :
    (k k' : Queues) (qs : List ℕ)
    → ((q : ℕ) → has q qs ≡ true → k'.pcb q ≡ k.pcb q)
    → k'.suspended_head ≡ k.suspended_head
    → IsQueue suspended k qs
    → IsQueue suspended k' qs
IsQueue-frame k k' qs same e is = record {
  linked = rw e (Linked-frame k.pcb k'.pcb k.suspended_head qs same is.linked);
  distinct = is.distinct;
}

-- No process has the name `t`, so none is found.
Finds-nobody :
    (name : ℕ → List ℕ) (t : List ℕ) (qs : List ℕ) (p : ℕ)
    → ((q : ℕ) → has q qs ≡ true → name q ≢ t)
    → Finds name t qs p
    → p ≡ null
Finds-nobody name t [] p fresh e = e
Finds-nobody name t (q ∷ qs) p fresh (inl (e, _)) = absurd (fresh q (ground arith) e)
Finds-nobody name t (q ∷ qs) p fresh (inr (_, h)) =
    Finds-nobody name t qs p (λ a i. fresh a (ground (arith, i))) h

-- the arguments that `pcb_setup` accepts
pub record Valid (t : List ℕ) (class priority : ℤ) : Type 0 where
  pub plain : NoNul t
  pub long : 2 ≤ length t
  pub short : length t ≤ 50
  pub class_ok : (eqb_ℤ class user_proc || eqb_ℤ class system_proc) ≡ true
  pub priority_ok : (ltb_ℤ priority (pos 0) || ltb_ℤ (pos 9) priority) ≡ false

-- the block that `pcb_allocate` returns
abbrev cleared : Pcb → Pcb
cleared b = record b {
  class = negsuc 0;
  priority = negsuc 0;
  state = negsuc 0;
  next_pcb = null;
  prev_pcb = null;
}

-- the block that `pcb_setup` returns, at `p`
abbrev pub set_up : (p : ℕ) → List ℕ → (class priority : ℤ) → Pcb → Pcb
set_up p t class priority b = record b {
  name = c_string t (drop (suc (length t)) b.name);
  class = class;
  priority = priority;
  state = ready_state;
  stack_top = p + stack_offset;
  next_pcb = null;
  prev_pcb = null;
}

module _ (kmalloc : ℕ → Heap → Run (ℕ × Heap)) (functions : HeapFunctions) where
  pcb_allocate-ok :
      (p : ℕ) (h : Heap) (m : Processes)
      → sys_alloc_mem kmalloc functions pcb_bytes m.heap ≡ ok (p, h)
      → 0 < p
      → pcb_allocate kmalloc functions m
        ≡ ok (p, with_pcb p (cleared (m.queues.pcb p)) (record m { heap = h }))
  unfolding pcb_allocate
  pcb_allocate-ok p h m e low = let here : (p == null) ≡ false = ground arith in rw (e, here) refl

  bad_arguments-ok :
      (t rest : List ℕ) (class priority : ℤ)
      → Valid t class priority
      → bad_arguments kmalloc functions (some (c_string t rest)) class priority ≡ ok false
  unfolding bad_arguments
  bad_arguments-ok t rest class priority v =
      let c : (not (eqb_ℤ class user_proc) && not (eqb_ℤ class system_proc)) ≡ false =
        ground (arith, v.class_ok) in
      let n : (ltb (length t) min_name_len || ltb max_name_len (length t)) ≡ false =
        ground (arith, v.long, v.short) in
      rw (v.priority_ok, c, strlen_lem t rest v.plain) (ap ok n)

  fill_pcb-ok :
      (p : ℕ) (t rest : List ℕ) (class priority : ℤ) (b : Pcb) (m : Processes)
      → NoNul t
      → length t < length b.name
      → m.queues.pcb p ≡ cleared b
      → fill_pcb kmalloc functions p (some (c_string t rest)) class priority m
        ≡ ok (with_pcb p (set_up p t class priority b) m)
  unfolding fill_pcb
  fill_pcb-ok p t rest class priority b m plain room e =
      let count : length t + 1 ≡ suc (length t) = omega arith in
      rw (strlen_lem t rest plain, count, e, memcpy-nul t rest b.name room) refl

  pcb_setup-run :
      (fuel p : ℕ) (name : List ℕ) (class priority : ℤ) (texts : List String) (m m₁ m₂ : Processes)
      → 0 < p
      → pcb_allocate kmalloc functions m ≡ ok (p, m₁)
      → bad_arguments kmalloc functions (some name) class priority ≡ ok false
      → fill_pcb kmalloc functions p (some name) class priority m₁ ≡ ok m₂
      → pcb_find fuel (m₂.queues.pcb p).name m₂.queues ≡ ok (null, texts)
      → pcb_setup kmalloc functions fuel (some name) class priority m
        ≡ ok (p, record m₂ { console = m₂.console ++ texts })
  unfolding pcb_setup
  pcb_setup-run fuel p name class priority texts m m₁ m₂ low allocated good filled found =
      let here : (p == null) ≡ false = ground arith in
      rw (allocated, here, good, filled, found) refl

-- what `pcb_setup` returns: the block, set up, with the queues and the other blocks as they were
pub record SetUp (p : ℕ) (t : List ℕ) (class priority : ℤ) (name : ℕ → List ℕ) (rs ss : List ℕ)
    (h : Heap) (m : Processes) (r : ℕ × Processes) : Type 0 where
  pub block : r.0 ≡ p
  pub made : r.1.queues.pcb p ≡ set_up p t class priority (m.queues.pcb p)
  pub outside : (q : ℕ) → q ≢ p → r.1.queues.pcb q ≡ m.queues.pcb q
  pub named : Named r.1.queues name rs ss
  pub heap : r.1.heap ≡ h

module _ (kmalloc : ℕ → Heap → Run (ℕ × Heap)) (functions : HeapFunctions) (fuel p : ℕ)
    (t rest : List ℕ) (class priority : ℤ) (name : ℕ → List ℕ) (rs ss : List ℕ) (h : Heap)
    (m : Processes) where
  old : Pcb
  old = m.queues.pcb p

  allocated : Processes
  unfolding old
  allocated = with_pcb p (cleared old) (record m { heap = h })

  placed : Processes
  unfolding old allocated
  placed = with_pcb p (set_up p t class priority old) allocated

  update-same : (f : ℕ → Pcb) (x : Pcb) → update f p x p ≡ x
  update-same f x = ground arith

  placed-outside : (q : ℕ) → q ≢ p → placed.queues.pcb q ≡ m.queues.pcb q
  unfolding placed allocated
  placed-outside q ne = let apart : (p == q) ≡ false = ground (arith, ne) in rw apart refl

  placed-here : placed.queues.pcb p ≡ set_up p t class priority old
  unfolding placed
  placed-here = ground arith

  -- A block that is in no queue is no member of one.
  placed-member :
      (qs : List ℕ)
      → has p qs ≡ false
      → (q : ℕ) → has q qs ≡ true
      → placed.queues.pcb q ≡ m.queues.pcb q
  placed-member qs out q i =
      placed-outside q
        λ e. let same : has q qs ≡ has p qs = ap (λ a. has a qs) e in ground (arith, same, i, out)

  placed-Named :
      has p (rs ++ ss) ≡ false → Named m.queues name rs ss → Named placed.queues name rs ss
  unfolding placed allocated
  placed-Named out named =
      let both = has-append p rs ss in
      let left : has p rs ≡ false = ground (arith, both) in
      let right : has p ss ≡ false = ground (arith, both) in
      record {
        ready_queue = record {
          linked =
              Linked-frame m.queues.pcb placed.queues.pcb m.queues.ready_head rs
                (placed-member rs left) named.ready_queue.linked;
          distinct = named.ready_queue.distinct;
        };
        suspended_queue = record {
          linked =
              Linked-frame m.queues.pcb placed.queues.pcb m.queues.suspended_head ss
                (placed-member ss right) named.suspended_queue.linked;
          distinct = named.suspended_queue.distinct;
        };
        names =
            AreNamed-frame m.queues.pcb placed.queues.pcb name name (rs ++ ss)
              (λ q i. (ap (λ (b : Pcb). b.name) (placed-member (rs ++ ss) out q i), refl))
              named.names;
        apart = named.apart;
      }

pub pcb_setup-SetUp :
    (kmalloc : ℕ → Heap → Run (ℕ × Heap)) (functions : HeapFunctions) (fuel p : ℕ) (t rest : List ℕ)
    (class priority : ℤ) (name : ℕ → List ℕ) (rs ss : List ℕ) (h : Heap) (m : Processes)
    → Valid t class priority
    → Named m.queues name rs ss
    → ((q : ℕ) → has q (rs ++ ss) ≡ true → name q ≢ t)
    → sys_alloc_mem kmalloc functions pcb_bytes m.heap ≡ ok (p, h)
    → 0 < p
    → has p (rs ++ ss) ≡ false
    → length t < length (m.queues.pcb p).name
    → length rs < fuel
    → length ss < fuel
    → Returns
        (SetUp p t class priority name rs ss h m)
        (pcb_setup kmalloc functions fuel (some (c_string t rest)) class priority m)
unfolding placed allocated old
pcb_setup-SetUp kmalloc functions fuel p t rest class priority name rs ss h m valid named fresh
      gives low out room fr fs =
    let b = m.queues.pcb p in
    let m₁ = with_pcb p (cleared b) (record m { heap = h }) in
    let m₂ = placed kmalloc functions fuel p t rest class priority name rs ss h m in
    let named₂ =
      placed-Named kmalloc functions fuel p t rest class priority name rs ss h m out named in
    let here : m₂.queues.pcb p ≡ set_up p t class priority b =
      placed-here kmalloc functions fuel p t rest class priority name rs ss h m in
    let (r, found, none_has_it) = returned (
      pcb_find-Finds fuel t (drop (suc (length t)) b.name) m₂.queues name rs ss valid.plain
        named₂.ready_queue named₂.suspended_queue named₂.names fr fs) in
    let nobody : r.0 ≡ null = Finds-nobody name t (rs ++ ss) r.0 fresh none_has_it in
    let clear : m₁.queues.pcb p ≡ cleared b = ground arith in
    let missing : pcb_find fuel (m₂.queues.pcb p).name m₂.queues ≡ ok (null, r.1) =
      ap (λ (x : Pcb). pcb_find fuel x.name m₂.queues) here
      ∙ found
      ∙ ap (λ a. ok (a, r.1)) nobody in
    subst (Returns (SetUp p t class priority name rs ss h m))
      (sym (
        pcb_setup-run kmalloc functions fuel p (c_string t rest) class priority r.1 m m₁ m₂ low
          (pcb_allocate-ok kmalloc functions p h m gives low)
          (bad_arguments-ok kmalloc functions t rest class priority valid)
          (fill_pcb-ok kmalloc functions p t rest class priority b m₁ valid.plain room clear)
          missing))
      (returns (record {
        block = refl;
        made = here;
        outside = placed-outside kmalloc functions fuel p t rest class priority name rs ss h m;
        named = named₂;
        heap = refl;
      }))
