-- ===== src/Command/Load/Contexts.antt =====
-- The context and the name of a process that the commands make.
use mathlib.Core.Path.{subst}
use mpx.Base.{
  ℕ, ◌+◌, ◌<◌, ◌≡◌, ◌≢◌, refl, ◌∙◌, ap, inl, inr, Bool, true, false, some, List, [], ◌∷◌, ◌++◌,
  arith, ◌==◌, if◌then◌else◌, Bool-cases, length, map,
}
use mpx.Base.Int.{ℤ}
use mpx.Base.Run.{Run, ok, ◌>>=◌, returned}
use mpx.Base.Text.{with_nul}
use mpx.Heap.{Heap}
use mpx.SysMem.{HeapFunctions, sys_alloc_mem}
use mpx.CString.Laws.{NoNul, c_string}
use mpx.Pcb.{Pcb, Queues, null, ready_state, pcb_insert}
use mpx.Pcb.Queue.{has, place, rank, SameButNext, has-place}
use mpx.Pcb.Find.{AreNamed}
use mpx.Pcb.Setup.{Processes, pcb_bytes, stack_offset}
use mpx.Pcb.Setup.Valid.{Named, Valid, set_up, has-append, pcb_setup-SetUp}
use mpx.Command.{Session}
use mpx.Command.Load.{Context, Machine, clear_context, stack_of, set_context, setup, load}

abbrev pub blocks : Machine → ℕ → Pcb
blocks m = m.session.queues.pcb

-- A process that starts at `entry`: ready, and its saved context, at the top of its stack, has the
-- kernel's segments, its base and stack pointers, and interrupts enabled.
pub record IsProcess (m : Machine) (p : ℕ) (t : List ℕ) (class priority : ℤ) (entry : ℕ)
    : Type 0 where
  pub name_at : (rest : List ℕ) × ((blocks m p).name ≡ c_string t rest)
  pub class_at : (blocks m p).class ≡ class
  pub priority_at : (blocks m p).priority ≡ priority
  pub state_at : (blocks m p).state ≡ ready_state
  pub stack_at : (blocks m p).stack_top ≡ p + stack_offset
  pub start_at : (m.context (p + stack_offset)).eip ≡ entry
  pub code_at : (m.context (p + stack_offset)).cs ≡ 0x08
  pub data_at : (m.context (p + stack_offset)).ds ≡ 0x10
  pub extra_at : (m.context (p + stack_offset)).es ≡ 0x10
  pub file_at : (m.context (p + stack_offset)).fs ≡ 0x10
  pub global_at : (m.context (p + stack_offset)).gs ≡ 0x10
  pub segment_at : (m.context (p + stack_offset)).ss ≡ 0x10
  pub base_at : (m.context (p + stack_offset)).ebp ≡ stack_of p
  pub stack_pointer_at : (m.context (p + stack_offset)).esp ≡ p + stack_offset
  pub flags_at : (m.context (p + stack_offset)).flags ≡ 0x0202

-- the names once `p` is called `t`
abbrev pub call_it : ℕ → List ℕ → (ℕ → List ℕ) → ℕ → List ℕ
call_it p t name q = if q == p then t else name q

-- what `load` leaves of the machine
pub record Loaded (p : ℕ) (t : List ℕ) (class priority : ℤ) (entry : ℕ) (name : ℕ → List ℕ)
    (rs ss : List ℕ) (h : Heap) (m m' : Machine) : Type 0 where
  pub process : IsProcess m' p t class priority entry
  pub named : Named m'.session.queues (call_it p t name) (place (rank (blocks m')) p rs) ss
  pub others :
      (q : ℕ) → q ≢ p → blocks m' q ≡ record (blocks m q) { next_pcb = (blocks m' q).next_pcb }
  pub contexts : (a : ℕ) → a ≢ p + stack_offset → m'.context a ≡ m.context a
  pub heap : m'.session.serial.heap ≡ h

-- A process's name in a list of named ones, and back.
AreNamed-member :
    (f : ℕ → Pcb) (name : ℕ → List ℕ) (qs : List ℕ) (q : ℕ)
    → AreNamed f name qs
    → has q qs ≡ true
    → NoNul (name q) × ((rest : List ℕ) × ((f q).name ≡ c_string (name q) rest))
AreNamed-member f name [] q h i = absurd (ground arith)
AreNamed-member f name (x ∷ qs) q h i = elim (Bool-cases (q == x)) [
  | inl same ↦
      let e : x ≡ q = ground arith in
      subst (λ a. NoNul (name a) × ((rest : List ℕ) × ((f a).name ≡ c_string (name a) rest))) e h.0
  | inr other ↦ AreNamed-member f name qs q h.1 (ground arith)
]

all-AreNamed :
    (f : ℕ → Pcb) (name : ℕ → List ℕ) (qs : List ℕ)
    → ((q : ℕ)
        → has q qs ≡ true
        → NoNul (name q) × ((rest : List ℕ) × ((f q).name ≡ c_string (name q) rest)))
    → AreNamed f name qs
all-AreNamed f name [] all = tt
all-AreNamed f name (q ∷ qs) all =
    (all q (ground arith), all-AreNamed f name qs λ a i. all a (ground (arith, i)))

module _ (kmalloc : ℕ → Heap → Run (ℕ × Heap)) (functions : HeapFunctions) (fuel p : ℕ)
    (t rest : List ℕ) (class priority : ℤ) (name : ℕ → List ℕ) (rs ss : List ℕ) (h : Heap) where
  -- what `pcb_setup` returns, in the commands' state
  pub record Prepared (d d' : Session) : Type 0 where
    pub made : d'.queues.pcb p ≡ set_up p t class priority (d.queues.pcb p)
    pub outside : (q : ℕ) → q ≢ p → d'.queues.pcb q ≡ d.queues.pcb q
    pub named : Named d'.queues name rs ss
    pub heap : d'.serial.heap ≡ h

  pub setup-Prepared :
      (d : Session)
      → Valid t class priority
      → Named d.queues name rs ss
      → ((q : ℕ) → has q (rs ++ ss) ≡ true → name q ≢ t)
      → sys_alloc_mem kmalloc functions pcb_bytes d.serial.heap ≡ ok (p, h)
      → 0 < p
      → has p (rs ++ ss) ≡ false
      → length t < length (d.queues.pcb p).name
      → length rs < fuel
      → length ss < fuel
      → (d' : Session) × (setup kmalloc functions fuel (some (c_string t rest)) class priority d
          ≡ ok (p, d'))
        × Prepared d d'
  unfolding setup
  setup-Prepared d valid named fresh gives low out room fr fs =
      let m : Processes = record { queues = d.queues; heap = d.serial.heap; console = [] } in
      let (r, run, s) = returned (
        pcb_setup-SetUp kmalloc functions fuel p t rest class priority name rs ss h m valid named
          fresh gives low out room fr fs) in
      let again : Processes → Session = λ m'. record d {
        queues = m'.queues;
        serial = record (d.serial) { heap = m'.heap };
        console = d.console ++ map with_nul m'.console;
      } in
      (
        again r.1,
        ap (λ (x : Run (ℕ × Processes)). x >>= λ (q, m'). ok (q, again m')) run
            ∙ ap (λ q. ok (q, again r.1)) s.block,
        record { made = s.made; outside = s.outside; named = s.named; heap = s.heap },
      )

  pub load-run :
      (whole : Bool) (entry : ℕ) (m : Machine) (d : Session) (k : Queues)
      → 0 < p
      → setup kmalloc functions fuel (some (c_string t rest)) class priority m.session ≡ ok (p, d)
      → pcb_insert fuel p d.queues ≡ ok k
      → load kmalloc functions fuel whole (c_string t rest) class priority entry m
        ≡ ok (
            let m₁ = set_context whole p entry (record m { session = d }) in
            record m₁ { session = record (m₁.session) { queues = k } })
  unfolding load set_context
  load-run whole entry m d k low prepared inserted =
      let here : (p == null) ≡ false = ground arith in rw (prepared, here, inserted) refl

-- A member is not the block outside.
pub member_apart : (p q : ℕ) (qs : List ℕ) → has p qs ≡ false → has q qs ≡ true → (q == p) ≡ false
member_apart p q qs out i = elim (Bool-cases (q == p)) [
  | inr other ↦ other
  | inl same ↦
      let e : q ≡ p = ground arith in
      let both : has q qs ≡ has p qs = ap (λ a. has a qs) e in ground (arith, both, i, out)
]

abbrev started : Context → (p entry top : ℕ) → Context
started c p entry top = record c {
  cs = 0x08;
  ds = 0x10;
  es = 0x10;
  fs = 0x10;
  gs = 0x10;
  ss = 0x10;
  ebp = stack_of p;
  esp = top;
  eip = entry;
  flags = 0x0202;
}

pub context-here :
    (whole : Bool) (p entry a : ℕ) (m : Machine)
    → (blocks m p).stack_top ≡ a
    → (set_context whole p entry m).context a
      ≡ started (clear_context whole (m.context a)) p entry a
unfolding set_context
context-here whole p entry a m e = rw e (let same : (a == a) ≡ true = ground arith in rw same refl)

pub context-other :
    (whole : Bool) (p entry a b : ℕ) (m : Machine)
    → (blocks m p).stack_top ≡ a
    → b ≢ a
    → (set_context whole p entry m).context b ≡ m.context b
unfolding set_context
context-other whole p entry a b m e ne =
    rw e (let other : (b == a) ≡ false = ground (arith, ne) in rw other refl)

blocks-set_context :
    (whole : Bool) (p entry : ℕ) (m : Machine) → (set_context whole p entry m).session ≡ m.session
unfolding set_context
blocks-set_context whole p entry m = refl

-- The names in both queues once the block is inserted.
pub inserted-names :
    (p : ℕ) (t junk : List ℕ) (name : ℕ → List ℕ) (r : ℕ → ℤ) (rs ss : List ℕ) (f g : ℕ → Pcb)
    → NoNul t
    → has p (rs ++ ss) ≡ false
    → (f p).name ≡ c_string t junk
    → SameButNext f g
    → AreNamed f name (rs ++ ss)
    → AreNamed g (call_it p t name) (place r p rs ++ ss)
inserted-names p t junk name r rs ss f g plain out e same named =
    all-AreNamed g (call_it p t name) (place r p rs ++ ss) λ q i.
      let kept : (g q).name ≡ (f q).name = ap (λ (b : Pcb). b.name) (same q) in
      elim (Bool-cases (q == p)) [
        | inl new ↦ let here : q ≡ p = ground arith in rw (new, kept, here) (plain, (junk, e))
        | inr old ↦
            let member : has q (rs ++ ss) ≡ true =
              ground
                (arith, has-append q (place r p rs) ss, has-append q rs ss, has-place r p q rs) in
            rw (old, kept) (AreNamed-member f name (rs ++ ss) q named member)
      ]
