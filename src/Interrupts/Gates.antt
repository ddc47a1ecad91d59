-- ===== src/Interrupts/Gates.antt =====
-- Which handlers irq_init of kernel/core-c.c installs.
use mathlib.Core.Path.{subst}
use mpx.Base.{
  ℕ, zero, suc, ◌+◌, ◌*◌, ◌^◌, ◌<◌, ◌≤◌, ◌≡◌, refl, ◌∙◌, ap, sym, Option, some, none, Bool-cases,
  inl, inr, true, false, ◌&&◌, arith, ltb, leb, lt→ltb, ◌==◌, if◌then◌else◌,
}
use mpx.Base.Run.{Run, ok, ◌>>=◌, Returns, returns, Returns-mono, returned}
use mpx.Interrupts.{
  Gate, code_selector, gate_flags, nisrs, required_interrupts, gate, idt_set_gate, set_gates,
  irq_init,
}

-- the handler's address in an entry
abbrev pub target : Gate → ℕ
target g = g.base_high * 2 ^ 16 + g.base_low

pub target-gate : (fn sel flags : ℕ) → fn < 2 ^ 32 → target (gate fn sel flags) ≡ fn
target-gate fn sel flags h = omega arith

-- an entry set by the loop, or left as it was
abbrev set_within : (n i : ℕ) → (ℕ → ℕ) → (ℕ → Gate) → ℕ → Gate
set_within n i fn entries j =
    if leb i j && ltb j (i + n) then gate (fn j) code_selector gate_flags else entries j

idt_set_gate-ok :
    (idx fn sel flags : ℕ) (entries : ℕ → Gate)
    → idx < 256
    → idt_set_gate idx fn sel flags entries
      ≡ ok (λ i. if i == idx then gate fn sel flags else entries i)
unfolding idt_set_gate
idt_set_gate-ok idx fn sel flags entries h = rw (lt→ltb idx 256 h) refl

set_gates-within :
    (n i : ℕ) (fn : ℕ → ℕ) (entries : ℕ → Gate)
    → i + n ≤ 256
    → Returns (λ t. (j : ℕ) → t j ≡ set_within n i fn entries j) (set_gates n i fn entries)
unfolding set_gates
set_gates-within zero i fn entries h = returns (λ j. ground arith)
set_gates-within (suc n) i fn entries h =
    rw (idt_set_gate-ok i (fn i) code_selector gate_flags entries (omega arith)) (
      Returns-mono
        (set_gates-within n (i + 1) fn
          (λ j. if j == i then gate (fn i) code_selector gate_flags else entries j) (omega arith))
        λ t e j. e j ∙ ground arith)

-- the handler that the loops of irq_init install for a vector, or none
abbrev pub loop_handler : (isrs : ℕ → ℕ) → (reserved : ℕ) → ℕ → Option ℕ
loop_handler isrs reserved j =
    if ltb j nisrs then some (isrs j) else if ltb j required_interrupts then some reserved else none

-- the handler that irq_init installs for a vector, or none
abbrev pub handler : (isrs : ℕ → ℕ) → (reserved rtc_isr sys_call_isr : ℕ) → ℕ → Option ℕ
handler isrs reserved rtc_isr sys_call_isr j =
    if j == 0x60
    then some sys_call_isr
    else if j == 0x08
    then some rtc_isr
    else loop_handler isrs reserved j

-- An entry leads to the handler with the kernel's code segment and flags, or is the one from before.
abbrev pub Installed : Option ℕ → (before now : Gate) → Type 0
Installed none before now = now ≡ before
Installed (some fn) before now =
    (target now ≡ fn)
    × (now.sselect ≡ code_selector)
    × (now.zero_byte ≡ 0)
    × (now.flags ≡ gate_flags)

Installed-gate :
    (fn : ℕ) (before now : Gate)
    → fn < 2 ^ 32
    → now ≡ gate fn code_selector gate_flags
    → Installed (some fn) before now
Installed-gate fn before now h e =
    subst (Installed (some fn) before) (sym e)
      (target-gate fn code_selector gate_flags h, refl, refl, refl)

-- what the four parts of irq_init leave of an entry
abbrev final : (isrs : ℕ → ℕ) → (reserved rtc_isr sys_call_isr : ℕ) → (ℕ → Gate) → ℕ → Gate
final isrs reserved rtc_isr sys_call_isr entries j =
    if j == 0x60
    then gate sys_call_isr code_selector gate_flags
    else if j == 0x08
    then gate rtc_isr code_selector gate_flags
    else set_within 15 nisrs (λ i. reserved) (set_within nisrs 0 isrs entries) j

module _ (isrs : ℕ → ℕ) (reserved rtc_isr sys_call_isr : ℕ) (entries : ℕ → Gate) (j : ℕ) where
  -- the entries of the two loops
  looped :
      isrs j < 2 ^ 32
      → reserved < 2 ^ 32
      → Installed
          (loop_handler isrs reserved j)
          (entries j)
          (set_within 15 nisrs (λ i. reserved) (set_within nisrs 0 isrs entries) j)
  looped hi hr = elim (Bool-cases (ltb j nisrs)) [
    | inl first ↦
        let outer : (leb nisrs j && ltb j (nisrs + 15)) ≡ false = ground arith in
        let inner : leb 0 j ≡ true = ground arith in
        rw (outer, inner, first) (Installed-gate (isrs j) (entries j) _ hi refl)
    | inr later ↦ elim (Bool-cases (ltb j required_interrupts)) [
      | inl second ↦
          let outer : (leb nisrs j && ltb j (nisrs + 15)) ≡ true = ground arith in
          rw (outer, later, second) (Installed-gate reserved (entries j) _ hr refl)
      | inr beyond ↦
          let outer : (leb nisrs j && ltb j (nisrs + 15)) ≡ false = ground arith in
          let inner : leb 0 j ≡ true = ground arith in rw (outer, inner, later, beyond) refl
    ]
  ]

  final-Installed :
      ((i : ℕ) → isrs i < 2 ^ 32)
      → (reserved < 2 ^ 32) × (rtc_isr < 2 ^ 32) × (sys_call_isr < 2 ^ 32)
      → Installed
          (handler isrs reserved rtc_isr sys_call_isr j)
          (entries j)
          (final isrs reserved rtc_isr sys_call_isr entries j)
  final-Installed small (hr, ht, hs) = elim (Bool-cases (j == 0x60)) [
    | inl call ↦ rw call (Installed-gate sys_call_isr (entries j) _ hs refl)
    | inr other ↦ elim (Bool-cases (j == 0x08)) [
      | inl rtc ↦ rw (other, rtc) (Installed-gate rtc_isr (entries j) _ ht refl)
      | inr rest ↦ rw (other, rest) (looped (small j) hr)
    ]
  ]

irq_init-run :
    (isrs : ℕ → ℕ) (reserved rtc_isr sys_call_isr : ℕ) (entries t₁ t₂ : ℕ → Gate)
    → set_gates nisrs 0 isrs entries ≡ ok t₁
    → set_gates 15 nisrs (λ i. reserved) t₁ ≡ ok t₂
    → irq_init isrs reserved rtc_isr sys_call_isr entries
      ≡ ok (λ i.
        if i == 0x60
        then gate sys_call_isr code_selector gate_flags
        else if i == 0x08
        then gate rtc_isr code_selector gate_flags
        else t₂ i)
unfolding irq_init
irq_init-run isrs reserved rtc_isr sys_call_isr entries t₁ t₂ r₁ r₂ =
    let last : (ℕ → Gate) → Run (ℕ → Gate) = λ t.
      idt_set_gate 0x08 rtc_isr code_selector gate_flags t >>= λ t₃.
      idt_set_gate 0x60 sys_call_isr code_selector gate_flags t₃ in
    ap (λ (r : Run (ℕ → Gate)). r >>= λ t. set_gates 15 nisrs (λ i. reserved) t >>= last) r₁
    ∙ ap (λ (r : Run (ℕ → Gate)). r >>= last) r₂
    ∙ ap
        (λ (r : Run (ℕ → Gate)).
          r >>= λ t₃. idt_set_gate 0x60 sys_call_isr code_selector gate_flags t₃)
        (idt_set_gate-ok 0x08 rtc_isr code_selector gate_flags t₂ (omega arith))
    ∙ idt_set_gate-ok 0x60 sys_call_isr code_selector gate_flags
        (λ i. if i == 0x08 then gate rtc_isr code_selector gate_flags else t₂ i) (omega arith)

-- `irq_init`, for handlers at addresses of 32 bits, returns, and then the entry 0x60 leads to
-- `sys_call_isr`, the entry 8 to `rtc_isr` (not to `double_fault`, the ninth of the array), any
-- other of the first 17 to the handler of that index in the array, and the others up to 31 to
-- `reserved`, all with the kernel's code segment and the flags 0x8e; no further entry is changed.
pub irq_init-Installed :
    (isrs : ℕ → ℕ) (reserved rtc_isr sys_call_isr : ℕ) (entries : ℕ → Gate)
    → ((i : ℕ) → isrs i < 2 ^ 32)
    → (reserved < 2 ^ 32) × (rtc_isr < 2 ^ 32) × (sys_call_isr < 2 ^ 32)
    → Returns
        (λ t. (j : ℕ) → Installed (handler isrs reserved rtc_isr sys_call_isr j) (entries j) (t j))
        (irq_init isrs reserved rtc_isr sys_call_isr entries)
unfolding irq_init
irq_init-Installed isrs reserved rtc_isr sys_call_isr entries small sizes =
    let (t₁, r₁, e₁) = returned (set_gates-within nisrs 0 isrs entries (omega arith)) in
    let (t₂, r₂, e₂) = returned (set_gates-within 15 nisrs (λ i. reserved) t₁ (omega arith)) in
    let same : (j : ℕ)
        → t₂ j ≡ set_within 15 nisrs (λ i. reserved) (set_within nisrs 0 isrs entries) j =
      λ j.
        e₂ j
        ∙ ap
            (λ g.
              if leb nisrs j && ltb j (nisrs + 15)
              then gate reserved code_selector gate_flags
              else g)
            (e₁ j) in
    subst
      (Returns
        (λ t. (j : ℕ) → Installed (handler isrs reserved rtc_isr sys_call_isr j) (entries j) (t j)))
      (sym (irq_init-run isrs reserved rtc_isr sys_call_isr entries t₁ t₂ r₁ r₂))
      (returns λ j.
        subst (Installed (handler isrs reserved rtc_isr sys_call_isr j) (entries j))
          (ap
            (λ g.
              if j == 0x60
              then gate sys_call_isr code_selector gate_flags
              else if j == 0x08
              then gate rtc_isr code_selector gate_flags
              else g)
            (sym (same j)))
          (final-Installed isrs reserved rtc_isr sys_call_isr entries j small sizes))
