-- ===== src/Command/Load/Jobs.antt =====
-- Several processes made one after another, as load_r3 and kmain do.
use mathlib.Core.Path.{subst}
use mpx.Base.{
  ℕ, ◌+◌, ◌<◌, ◌≡◌, ◌≢◌, refl, ◌∙◌, ap, sym, inl, inr, Bool, true, false, ◌||◌, List, [], ◌∷◌, ◌++◌,
  arith, ◌==◌, Bool-cases, length,
}
use mpx.Base.Int.{ℤ}
use mpx.Base.Run.{Run, ok, ◌>>=◌, Returns, returns, Returns-bind, Returns-mono}
use mpx.Heap.{Heap}
use mpx.SysMem.{HeapFunctions, sys_alloc_mem}
use mpx.CString.Laws.{c_string}
use mpx.Pcb.{Pcb}
use mpx.Pcb.Queue.{has, place, rank, has-place, length-place}
use mpx.Pcb.Order.{AtMost, Sorted, Sorted-place}
use mpx.Pcb.Setup.{pcb_bytes, stack_offset}
use mpx.Pcb.Setup.Valid.{Named, Valid, has-append}
use mpx.Command.Load.{Machine, load}
use mpx.Command.Load.Ready.{load-Loaded}
use mpx.Command.Load.Contexts.{blocks, call_it, IsProcess, Loaded, member_apart}

-- a process to make: its name, class, priority and entry, with the block and the heap that the
-- allocation for it gives
pub record Job : Type 0 where
  pub whole : Bool
  pub text : List ℕ
  pub class : ℤ
  pub priority : ℤ
  pub entry : ℕ
  pub block : ℕ
  pub after : Heap

abbrev pub addresses : List Job → List ℕ
addresses [] = []
addresses (j ∷ js) = j.block ∷ addresses js

abbrev pub AreProcesses : Machine → List Job → Type 0
AreProcesses m [] = Unit {0}
AreProcesses m (j ∷ js) = IsProcess m j.block j.text j.class j.priority j.entry × AreProcesses m js

abbrev pub last_heap : List Job → Heap → Heap
last_heap [] h = h
last_heap (j ∷ js) h = last_heap js j.after

-- what the jobs leave of the machine
pub record AllLoaded (js : List Job) (rs ss : List ℕ) (m m' : Machine) : Type 0 where
  pub processes : AreProcesses m' js
  pub name : ℕ → List ℕ
  pub queue : List ℕ
  pub named : Named m'.session.queues name queue ss
  pub sorted : Sorted (rank (blocks m')) queue
  pub heap_at : m'.session.serial.heap ≡ last_heap js m.session.serial.heap
  pub members : (q : ℕ) → has q queue ≡ (has q (addresses js) || has q rs)
  pub others :
      (q : ℕ)
      → has q (addresses js) ≡ false
      → blocks m' q ≡ record (blocks m q) { next_pcb = (blocks m' q).next_pcb }
  pub contexts :
      (q : ℕ)
      → has q (addresses js) ≡ false
      → m'.context (q + stack_offset) ≡ m.context (q + stack_offset)

module _ (kmalloc : ℕ → Heap → Run (ℕ × Heap)) (functions : HeapFunctions) where
  -- The jobs have valid and new names, and the heap gives a new block for each.
  abbrev pub CanLoad : List Job → Heap → (ℕ → List ℕ) → (busy : ℕ → Bool) → Type 0
  CanLoad [] h name busy = Unit {0}
  CanLoad (j ∷ js) h name busy =
      Valid j.text j.class j.priority
      × ((q : ℕ) → busy q ≡ true → name q ≢ j.text)
      × (sys_alloc_mem kmalloc functions pcb_bytes h ≡ ok (j.block, j.after))
      × (0 < j.block)
      × (busy j.block ≡ false)
      × CanLoad js j.after (call_it j.block j.text name) (λ q. q == j.block || busy q)

  unfoldable pub load_all : (fuel : ℕ) → List Job → Machine → Run Machine
  load_all fuel [] m = ok m
  load_all fuel (j ∷ js) m =
      load kmalloc functions fuel j.whole (c_string j.text []) j.class j.priority j.entry m
      >>= load_all fuel js

-- A name is new once another one is taken.
pub call_it-fresh :
    (p : ℕ) (t t' : List ℕ) (name : ℕ → List ℕ) (busy : ℕ → Bool)
    → t ≢ t'
    → ((q : ℕ) → busy q ≡ true → name q ≢ t')
    → (q : ℕ) → (q == p || busy q) ≡ true
    → call_it p t name q ≢ t'
call_it-fresh p t t' name busy ne fresh q b = elim (Bool-cases (q == p)) [
  | inl same ↦ rw same ne
  | inr other ↦ rw other (fresh q (ground (arith, b, other)))
]

AtMost-frame :
    (r r' : ℕ → ℤ) (z : ℤ) (qs : List ℕ)
    → ((q : ℕ) → has q qs ≡ true → r' q ≡ r q)
    → AtMost r z qs
    → AtMost r' z qs
AtMost-frame r r' z [] same h = tt
AtMost-frame r r' z (q ∷ qs) same h = (
  rw (same q (ground arith)) (h.0),
  AtMost-frame r r' z qs (λ a i. same a (ground (arith, i))) h.1,
)

Sorted-frame :
    (r r' : ℕ → ℤ) (qs : List ℕ)
    → ((q : ℕ) → has q qs ≡ true → r' q ≡ r q)
    → Sorted r qs
    → Sorted r' qs
Sorted-frame r r' [] same h = tt
Sorted-frame r r' (q ∷ qs) same h =
    let rest : (a : ℕ) → has a qs ≡ true → r' a ≡ r a = λ a i. same a (ground (arith, i)) in
    (
      rw (same q (ground arith)) (AtMost-frame r r' (r q) qs rest h.0),
      Sorted-frame r r' qs rest h.1,
    )

-- A process stays one while other blocks and contexts change.
pub IsProcess-kept :
    (m m' : Machine) (p : ℕ) (t : List ℕ) (class priority : ℤ) (entry : ℕ)
    → blocks m' p ≡ record (blocks m p) { next_pcb = (blocks m' p).next_pcb }
    → m'.context (p + stack_offset) ≡ m.context (p + stack_offset)
    → IsProcess m p t class priority entry
    → IsProcess m' p t class priority entry
IsProcess-kept m m' p t class priority entry same saved is = record {
  name_at = (is.name_at.0, ap (λ (b : Pcb). b.name) same ∙ is.name_at.1);
  class_at = ap (λ (b : Pcb). b.class) same ∙ is.class_at;
  priority_at = ap (λ (b : Pcb). b.priority) same ∙ is.priority_at;
  state_at = ap (λ (b : Pcb). b.state) same ∙ is.state_at;
  stack_at = ap (λ (b : Pcb). b.stack_top) same ∙ is.stack_at;
  start_at = rw saved is.start_at;
  code_at = rw saved is.code_at;
  data_at = rw saved is.data_at;
  extra_at = rw saved is.extra_at;
  file_at = rw saved is.file_at;
  global_at = rw saved is.global_at;
  segment_at = rw saved is.segment_at;
  base_at = rw saved is.base_at;
  stack_pointer_at = rw saved is.stack_pointer_at;
  flags_at = rw saved is.flags_at;
}

module _ (kmalloc : ℕ → Heap → Run (ℕ × Heap)) (functions : HeapFunctions) where
  -- No block of the jobs is busy.
  CanLoad-apart :
      (js : List Job) (h : Heap) (name : ℕ → List ℕ) (busy : ℕ → Bool) (q : ℕ)
      → CanLoad kmalloc functions js h name busy
      → busy q ≡ true
      → has q (addresses js) ≡ false
  CanLoad-apart [] h name busy q can b = refl
  CanLoad-apart (j ∷ js) h name busy q (_, _, _, _, free, can) b =
      let later =
        CanLoad-apart js j.after (call_it j.block j.text name) (λ a. a == j.block || busy a) q can
          (ground (arith, b)) in
      let first : (q == j.block) ≡ false = elim (Bool-cases (q == j.block)) [
        | inr other ↦ other
        | inl same ↦
            let e : q ≡ j.block = ground arith in
            let both : busy q ≡ busy j.block = ap busy e in ground (arith, both, b, free)
      ] in
      ground (arith, first, later)

  -- the step from one job to the rest
  one_more :
      (j : Job) (js : List Job) (name : ℕ → List ℕ) (rs ss : List ℕ) (m m₁ m₂ : Machine)
      → Loaded j.block j.text j.class j.priority j.entry name rs ss j.after m m₁
      → has j.block (addresses js) ≡ false
      → AllLoaded js (place (rank (blocks m₁)) j.block rs) ss m₁ m₂
      → AllLoaded (j ∷ js) rs ss m m₂
  one_more j js name rs ss m m₁ m₂ l apart a = record {
    processes = (
      IsProcess-kept m₁ m₂ j.block j.text j.class j.priority j.entry (a.others j.block apart)
          (a.contexts j.block apart) l.process,
      a.processes,
    );
    name = a.name;
    queue = a.queue;
    named = a.named;
    sorted = a.sorted;
    heap_at = a.heap_at ∙ ap (last_heap js) l.heap;
    members = λ q. ground (arith, a.members q, has-place (rank (blocks m₁)) j.block q rs);
    others = λ q out.
        a.others q (ground (arith, out))
        ∙ ap (λ (b : Pcb). record b { next_pcb = (blocks m₂ q).next_pcb })
            (l.others q (ground (arith, out)));
    contexts = λ q out.
        a.contexts q (ground (arith, out)) ∙ l.contexts (q + stack_offset) (ground (arith, out));
  }

  pub load_all-AllLoaded :
      (fuel : ℕ) (js : List Job) (m : Machine) (name : ℕ → List ℕ) (rs ss : List ℕ)
      (busy : ℕ → Bool)
      → CanLoad kmalloc functions js m.session.serial.heap name busy
      → Named m.session.queues name rs ss
      → Sorted (rank (blocks m)) rs
      → ((q : ℕ) → has q (rs ++ ss) ≡ busy q)
      → ((q : ℕ) → busy q ≡ false → 50 < length (blocks m q).name)
      → length js + length rs < fuel
      → length ss < fuel
      → Returns (AllLoaded js rs ss m) (load_all kmalloc functions fuel js m)
  unfolding load_all
  load_all-AllLoaded fuel [] m name rs ss busy can named sorted all room fr fs = returns (record {
    processes = tt;
    name = name;
    queue = rs;
    named = named;
    sorted = sorted;
    heap_at = refl;
    members = λ q. refl;
    others = λ q _. refl;
    contexts = λ q _. refl;
  })
  load_all-AllLoaded fuel (j ∷ js) m name rs ss busy (valid, fresh, gives, low, free, can) named
        sorted all room fr fs =
      let p = j.block in
      Returns-bind
        (load-Loaded kmalloc functions fuel p j.text [] j.class j.priority name rs ss j.after
          j.whole j.entry m valid named (λ q i. fresh q (sym (all q) ∙ i)) gives low (all p ∙ free)
          (omega (arith, valid.short, room p free)) (omega arith) fs)
        λ m₁ l.
          let r = rank (blocks m₁) in
          let busy₁ : ℕ → Bool = λ q. q == p || busy q in
          let can₁ : CanLoad kmalloc functions js m₁.session.serial.heap (call_it p j.text name)
              busy₁ =
            subst (λ x. CanLoad kmalloc functions js x (call_it p j.text name) busy₁) (sym l.heap)
              can in
          let out_rs : has p rs ≡ false = ground (arith, has-append p rs ss, all p, free) in
          let ranks : (q : ℕ) → has q rs ≡ true → r q ≡ rank (blocks m) q = λ q i.
            ap (λ (b : Pcb). b.priority)
              (l.others q (ground (arith, member_apart p q rs out_rs i))) in
          Returns-mono
            (load_all-AllLoaded fuel js m₁ (call_it p j.text name) (place r p rs) ss busy₁ can₁
              l.named (Sorted-place r p rs (Sorted-frame (rank (blocks m)) r rs ranks sorted))
              (λ q. ground (
                arith,
                has-append q (place r p rs) ss,
                has-append q rs ss,
                has-place r p q rs,
                all q,
              ))
              (λ q b.
                let kept = ap (λ (x : Pcb). x.name) (l.others q (ground (arith, b))) in
                omega (arith, ap length kept, room q (ground (arith, b))))
              (omega (arith, length-place r p rs)) fs)
            λ m₂ a.
              one_more j js name rs ss m m₁ m₂ l
                (CanLoad-apart js m₁.session.serial.heap (call_it p j.text name) busy₁ p can₁
                  (ground arith))
                a
