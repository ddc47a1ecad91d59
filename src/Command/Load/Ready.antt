-- ===== src/Command/Load/Ready.antt =====
-- The processes that kmain and load_r3 make are ready, with their contexts set.
use mathlib.Core.Path.{subst}
use mpx.Base.{
  ℕ, ◌+◌, ◌<◌, ◌≡◌, ◌≢◌, refl, ◌∙◌, ap, sym, Bool, true, false, ◌||◌, List, ◌++◌, arith, ◌==◌,
  length,
}
use mpx.Base.Int.{ℤ}
use mpx.Base.Run.{Run, ok, Returns, returns, returned}
use mpx.Heap.{Heap}
use mpx.SysMem.{HeapFunctions, sys_alloc_mem}
use mpx.CString.Laws.{NoNul, c_string}
use mpx.Pcb.{Pcb, Queues, ready_state, ready, suspended}
use mpx.Pcb.Queue.{has, place, rank, SameButNext, has-place}
use mpx.Pcb.Insert.{pcb_insert_lem, Inserted}
use mpx.Pcb.Order.{same_rank}
use mpx.Pcb.Setup.{pcb_bytes, stack_offset}
use mpx.Pcb.Setup.Valid.{Named, Valid, set_up, has-append, IsQueue-frame}
use mpx.SysCall.Idle.{insert_head-ready}
use mpx.Command.{Session}
use mpx.Command.Load.{Context, Machine, set_context, load}
use mpx.Command.Load.Contexts.{
  IsProcess, Loaded, blocks, call_it, context-here, context-other, inserted-names, load-run,
  member_apart, setup-Prepared,
}

module _ (p : ℕ) (t : List ℕ) (class priority : ℤ) (name : ℕ → List ℕ) (rs ss : List ℕ) (h : Heap)
    (whole : Bool) (entry : ℕ) (m : Machine) (d : Session) (k : Queues) where
  loaded : Machine
  loaded =
      let m₁ = set_context whole p entry (record m { session = d }) in
      record m₁ { session = record (m₁.session) { queues = k } }

  blocks-loaded : blocks loaded ≡ k.pcb
  unfolding loaded
  blocks-loaded = refl

  loaded-IsProcess :
      (b : Pcb)
      → d.queues.pcb p ≡ set_up p t class priority b
      → SameButNext d.queues.pcb k.pcb
      → IsProcess loaded p t class priority entry
  unfolding loaded
  loaded-IsProcess b made same =
      let top : (d.queues.pcb p).stack_top ≡ p + stack_offset =
        ap (λ (x : Pcb). x.stack_top) made in
      let saved = context-here whole p entry (p + stack_offset) (record m { session = d }) top in
      record {
        name_at = (_, ap (λ (x : Pcb). x.name) (same p) ∙ ap (λ (x : Pcb). x.name) made);
        class_at = ap (λ (x : Pcb). x.class) (same p) ∙ ap (λ (x : Pcb). x.class) made;
        priority_at = ap (λ (x : Pcb). x.priority) (same p) ∙ ap (λ (x : Pcb). x.priority) made;
        state_at = ap (λ (x : Pcb). x.state) (same p) ∙ ap (λ (x : Pcb). x.state) made;
        stack_at = ap (λ (x : Pcb). x.stack_top) (same p) ∙ top;
        start_at = ap (λ (c : Context). c.eip) saved;
        code_at = ap (λ (c : Context). c.cs) saved;
        data_at = ap (λ (c : Context). c.ds) saved;
        extra_at = ap (λ (c : Context). c.es) saved;
        file_at = ap (λ (c : Context). c.fs) saved;
        global_at = ap (λ (c : Context). c.gs) saved;
        segment_at = ap (λ (c : Context). c.ss) saved;
        base_at = ap (λ (c : Context). c.ebp) saved;
        stack_pointer_at = ap (λ (c : Context). c.esp) saved;
        flags_at = ap (λ (c : Context). c.flags) saved;
      }

  loaded-Named :
      (b : Pcb)
      → NoNul t
      → has p (rs ++ ss) ≡ false
      → d.queues.pcb p ≡ set_up p t class priority b
      → Named d.queues name rs ss
      → Inserted ready p rs d.queues k
      → Named loaded.session.queues (call_it p t name) (place (rank (blocks loaded)) p rs) ss
  unfolding loaded
  loaded-Named b plain out made named ins =
      let new_or_ready : (q : ℕ) → has q ss ≡ true → (q == p || has q rs) ≡ false = λ q i.
        let elsewhere : has q rs ≡ false = named.apart q i in
        let ne : (q == p) ≡ false =
          member_apart p q (rs ++ ss) out (ground (arith, has-append q rs ss, i)) in
        ground (arith, elsewhere, ne) in
      let ranks : rank k.pcb ≡ rank d.queues.pcb = same_rank d.queues.pcb k.pcb ins.spared.fields in
      rw ranks (record {
        ready_queue = ins.queue;
        suspended_queue =
            IsQueue-frame d.queues k ss (λ q i. ins.spared.outside q (new_or_ready q i))
              (ins.heads suspended (ground arith)) named.suspended_queue;
        names =
            inserted-names p t _ name (rank d.queues.pcb) rs ss d.queues.pcb k.pcb plain out
              (ap (λ (x : Pcb). x.name) made) ins.spared.fields named.names;
        apart = λ q i. has-place (rank d.queues.pcb) p q rs ∙ new_or_ready q i;
      })

-- For a block from the heap and a name, class and priority as in pcb_setup-SetUp, `load` returns: the
-- process is made with that name, class and priority, to start at `entry` with the kernel's segments
-- in all six segment registers, its base and stack pointers in its own block and interrupts enabled,
-- it is placed in the ready queue by its priority, the suspended queue stays, the fields of all other
-- blocks but the links stay, and so do all other contexts.
pub load-Loaded :
    (kmalloc : ℕ → Heap → Run (ℕ × Heap)) (functions : HeapFunctions) (fuel p : ℕ) (t rest : List ℕ)
    (class priority : ℤ) (name : ℕ → List ℕ) (rs ss : List ℕ) (h : Heap) (whole : Bool) (entry : ℕ)
    (m : Machine)
    → Valid t class priority
    → Named m.session.queues name rs ss
    → ((q : ℕ) → has q (rs ++ ss) ≡ true → name q ≢ t)
    → sys_alloc_mem kmalloc functions pcb_bytes m.session.serial.heap ≡ ok (p, h)
    → 0 < p
    → has p (rs ++ ss) ≡ false
    → length t < length (blocks m p).name
    → length rs < fuel
    → length ss < fuel
    → Returns
        (Loaded p t class priority entry name rs ss h m)
        (load kmalloc functions fuel whole (c_string t rest) class priority entry m)
unfolding loaded set_context
load-Loaded kmalloc functions fuel p t rest class priority name rs ss h whole entry m valid named
      fresh gives low out room fr fs =
    let (d, prepared, x) =
      setup-Prepared kmalloc functions fuel p t rest class priority name rs ss h m.session valid
        named fresh gives low out room fr fs in
    let state : (d.queues.pcb p).state ≡ ready_state = ap (λ (b : Pcb). b.state) x.made in
    let free : has p rs ≡ false = ground (arith, has-append p rs ss, out) in
    let (k, inserted, ins) = returned (
      pcb_insert_lem fuel p ready d.queues rs low (insert_head-ready _ state) x.named.ready_queue
        free (omega arith)) in
    subst (Returns (Loaded p t class priority entry name rs ss h m))
      (sym (
        load-run kmalloc functions fuel p t rest class priority name rs ss h whole entry m d k low
          prepared inserted))
      (returns (record {
        process =
            loaded-IsProcess p t class priority name rs ss h whole entry m d k (blocks m p) x.made
              ins.spared.fields;
        named =
            loaded-Named p t class priority name rs ss h whole entry m d k (blocks m p) valid.plain
              out x.made x.named ins;
        others = λ q ne.
            ins.spared.fields q
            ∙ ap (λ (b : Pcb). record b { next_pcb = (k.pcb q).next_pcb }) (x.outside q ne);
        contexts = λ a ne.
            context-other whole p entry (p + stack_offset) a (record m { session = d })
              (ap (λ (b : Pcb). b.stack_top) x.made) ne;
        heap = x.heap;
      }))
