-- ===== src/Boot/Ports.antt =====
-- What the log and the set-up of the ports leave of the driver, in kernel/kmain.c.
use Prim.Native.String.{String}
use mpx.Base.{
  ℕ, ◌≡◌, refl, ◌∙◌, ap, Bool, true, false, Option, some, none, List, [], ◌∷◌, get_elem?, length,
}
use mpx.Base.Int.{pos}
use mpx.Base.Run.{Returns, returns}
use mpx.Base.Text.{codes}
use mpx.Serial.{
  Serial, Dcb, com1, serial_devno, serial_init, serial_open, serial_out, write_all, outb, inb,
  clear_bit,
}
use mpx.Interrupts.{pic_init}
use mpx.Boot.{klogv}

-- only what is written differs
abbrev pub SameButOutputs : Serial → Serial → Type 0
SameButOutputs s s' = s' ≡ record s { outputs = s'.outputs }

pub SameButOutputs-trans :
    (s t u : Serial) → SameButOutputs s t → SameButOutputs t u → SameButOutputs s u
SameButOutputs-trans s t u a b = b ∙ ap (λ (x : Serial). record x { outputs = u.outputs }) a

write_all-SameButOutputs :
    (dev : ℕ) (xs : List ℕ) (s : Serial) → SameButOutputs s (write_all dev xs s)
unfolding write_all outb
write_all-SameButOutputs dev [] s = refl
write_all-SameButOutputs dev (x ∷ xs) s =
    SameButOutputs-trans s (outb dev x s) (write_all dev xs (outb dev x s)) refl
      (write_all-SameButOutputs dev xs (outb dev x s))

serial_out-SameButOutputs :
    (bytes : List ℕ) (s : Serial) → SameButOutputs s (serial_out com1 bytes s).1
unfolding serial_out serial_devno
serial_out-SameButOutputs bytes s = by_state (get_elem? s.initialized 0)
  where
    by_state :
        (o : Option Bool)
        → SameButOutputs s (
            (elim o as (λ _. Option ℕ × Serial) [
              | some true ↦ (some (length bytes), write_all com1 bytes s)
              | _ ↦ (none, s)
            ]).1)
    by_state none = refl
    by_state (some true) = write_all-SameButOutputs com1 bytes s
    by_state (some false) = refl

pub klogv-SameButOutputs : (msg : String) (s : Serial) → SameButOutputs s (klogv com1 msg s)
unfolding klogv
klogv-SameButOutputs msg s =
    let s₁ = (serial_out com1 (codes "klogv: ") s).1 in
    let s₂ = (serial_out com1 (codes msg) s₁).1 in
    SameButOutputs-trans s s₁ (klogv com1 msg s) (serial_out-SameButOutputs (codes "klogv: ") s) (
      SameButOutputs-trans s₁ s₂ (klogv com1 msg s) (serial_out-SameButOutputs (codes msg) s₁)
        (serial_out-SameButOutputs (13 ∷ 10 ∷ []) s₂))

pub pic_init-SameButOutputs : (s : Serial) → SameButOutputs s (pic_init s)
unfolding pic_init outb
pic_init-SameButOutputs s = refl

pub serial_init-opened :
    (v : ℕ) (more : List ℕ) (b : Bool) (rest : List Bool) (s : Serial)
    → s.inputs ≡ v ∷ more
    → s.initialized ≡ b ∷ rest
    → Returns
        (λ (failed, s'). (s'.inputs ≡ more) × (s'.initialized ≡ true ∷ rest) × (s'.heap ≡ s.heap))
        (serial_init com1 s)
unfolding serial_init serial_devno outb inb
serial_init-opened v more b rest s reads state = rw (reads, state) (returns (refl, refl, refl))

pub serial_open-opened :
    (mask : ℕ) (more : List ℕ) (old : Dcb) (s : Serial)
    → s.inputs ≡ mask ∷ more
    → Returns
        (λ (code, s').
          (code ≡ pos 0) × (s'.port.curr_dev ≡ com1) × (s'.inputs ≡ more) × (s'.heap ≡ s.heap))
        (serial_open com1 (pos 19200) old s)
unfolding serial_open outb inb clear_bit
serial_open-opened mask more old s reads = rw reads (returns (refl, refl, refl, refl))
