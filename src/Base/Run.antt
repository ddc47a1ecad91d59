-- ===== src/Base/Run.antt =====
-- The result of running C code: a fault (a NULL or stray access, a kernel panic), loops that did not
-- end within the fuel, or a value.
use mathlib.Core.Path.{◌≡◌, refl}

pub data Run {a} (X : Type a) : Type a where
  fault out_of_fuel : Run X
  ok : X → Run X

infixl 5 ◌>>=◌
abbrev pub ◌>>=◌ {a b} : {X : Type a} {Y : Type b} (first : Run X) (next : X → Run Y) → Run Y
fault >>= next = fault
out_of_fuel >>= next = out_of_fuel
ok x >>= next = next x

-- Total correctness of a run: it ends without a fault, and its value satisfies `Post`.
pub data Returns {a p} {X : Type a} (Post : X → Type p) : (run : Run X) → Type (a ⊔ p) where
  returns : {x : X} (holds : Post x) → Returns Post (ok x)

-- Weakening, and a run after another.
pub Returns-mono {a p q} :
    {X : Type a} {Post : X → Type p} {Weak : X → Type q} {run : Run X}
    → Returns Post run
    → ((x : X) → Post x → Weak x)
    → Returns Weak run
Returns-mono (returns {x} holds) weaken = returns (weaken x holds)

pub Returns-bind {a b p q} :
    {X : Type a} {Y : Type b} {Mid : X → Type p} {Post : Y → Type q} {first : Run X}
    {next : X → Run Y}
    → Returns Mid first
    → ((x : X) → Mid x → Returns Post (next x))
    → Returns Post (first >>= next)
Returns-bind (returns {x} holds) continue = continue x holds

-- The value of a run that returns, with what it satisfies.
pub returned {a p} :
    {X : Type a} {P : X → Type p} {run : Run X} → Returns P run → (x : X) × (run ≡ ok x) × P x
returned (returns {x} holds) = (x, refl, holds)

-- What goes on may be replaced by what does the same; and going on with the value itself.
pub bind_same {a b} :
    {X : Type a} {Y : Type b} (m : Run X) (f g : X → Run Y)
    → ((x : X) → f x ≡ g x)
    → (m >>= f) ≡ (m >>= g)
bind_same fault f g h = refl
bind_same out_of_fuel f g h = refl
bind_same (ok x) f g h = h x

pub >>=-ok {a} : {X : Type a} (m : Run X) → (m >>= λ x. ok x) ≡ m
>>=-ok fault = refl
>>=-ok out_of_fuel = refl
>>=-ok (ok x) = refl
