-- ===== src/SysCall/Fair.antt =====
-- Round robin: what repeated IDLE calls do to processes of one priority.
use mpx.Base.{
  ℕ, ◌+◌, ◌<◌, ◌≡◌, refl, ◌∙◌, ap, true, false, ◌||◌, List, [], ◌∷◌, ◌++◌, arith, ◌==◌, ==_refl,
  length,
}
use mpx.Base.Int.{ℤ, pos, ltb_ℤ}
use mathlib.Core.Path.{subst}
use mpx.Base.Run.{Run, ok, ◌>>=◌, Returns, returns, Returns-mono, Returns-bind}
use mpx.Pcb.{null}
use mpx.Pcb.Queue.{has, place, erase, rank}
use mpx.Heap.{Heap}
use mpx.SysMem.{HeapFunctions}
use mpx.SysCall.{Context, Kernel, sys_call}
use mpx.SysCall.Idle.{IsRunning, sys_call-Switched}

-- All processes of `qs` have the priority `p`.
unfoldable pub OfPriority : ℤ → (ℕ → ℤ) → List ℕ → Type 0
OfPriority p r qs = (q : ℕ) → has q qs ≡ true → r q ≡ p

place-last :
    (r : ℕ → ℤ) (p : ℤ) (x : ℕ) (qs : List ℕ)
    → ltb_ℤ p p ≡ false
    → r x ≡ p
    → OfPriority p r qs
    → place r x qs ≡ qs ++ (x ∷ [])
unfolding place OfPriority
place-last r p x [] i e all = refl
place-last r p x (q ∷ qs) i e all =
    rw (e, all q (ground (arith, ==_refl q)), i)
      (ap (λ t. q ∷ t) (place-last r p x qs i e (λ y h. all y (ground arith))))

has-++ : (a : ℕ) (xs ys : List ℕ) → has a (xs ++ ys) ≡ (has a xs || has a ys)
has-++ a [] ys = refl
has-++ a (x ∷ xs) ys = ground (arith, has-++ a xs ys)

++-assoc : (xs ys zs : List ℕ) → (xs ++ ys) ++ zs ≡ xs ++ (ys ++ zs)
++-assoc [] ys zs = refl
++-assoc (x ∷ xs) ys zs = ap (λ t. x ∷ t) (++-assoc xs ys zs)

length-++ : (xs ys : List ℕ) → length (xs ++ ys) ≡ length xs + length ys
length-++ [] ys = omega arith
length-++ (x ∷ xs) ys = omega (arith, length-++ xs ys)

erase-head : (n : ℕ) (qs : List ℕ) → erase n (n ∷ qs) ≡ qs
unfolding erase
erase-head n qs = rw (==_refl n) refl

ltb_ℤ-irrefl : (p : ℤ) → ltb_ℤ p p ≡ false
ltb_ℤ-irrefl p = ground arith

-- `g` runs, `qs` are ready, all of them of priority `p`, and IDLE is the call of every context.
record Round (p : ℤ) (cs : List ℕ) (s : Kernel) (g : ℕ) (qs : List ℕ) : Type 0 where
  running : IsRunning s g qs
  priorities : OfPriority p (rank s.queues.pcb) (g ∷ qs)
  idles : (c : ℕ) → has c cs ≡ true → (s.context c).eax ≡ pos 1
  started : (s.initial_context == null) ≡ false

-- One IDLE call after the other, with the contexts that the callers saved, in order.
unfoldable pub idle_calls :
    (kmalloc : ℕ → Heap → Run (ℕ × Heap)) (functions : HeapFunctions)
    → ℕ
    → List ℕ
    → Kernel
    → Run Kernel
idle_calls kmalloc functions fuel [] s = ok s
idle_calls kmalloc functions fuel (c ∷ cs) s =
    sys_call kmalloc functions fuel c s >>= λ (_, s₁). idle_calls kmalloc functions fuel cs s₁

turn :
    (p : ℤ) (g n : ℕ) (qs : List ℕ) (r : ℕ → ℤ)
    → OfPriority p r (g ∷ n ∷ qs)
    → erase n (place r g (n ∷ qs)) ≡ qs ++ (g ∷ [])
unfolding OfPriority
turn p g n qs r all =
    rw
      (place-last r p g (n ∷ qs) (ltb_ℤ-irrefl p) (all g (ground (arith, ==_refl g)))
        (λ y h. all y (ground arith)))
      (erase-head n (qs ++ (g ∷ [])))

sys_call-Round :
    (kmalloc : ℕ → Heap → Run (ℕ × Heap)) (functions : HeapFunctions) (fuel : ℕ) (p : ℤ) (c : ℕ)
    (cs : List ℕ) (s : Kernel) (g n : ℕ) (qs : List ℕ)
    → Round p (c ∷ cs) s g (n ∷ qs)
    → length (n ∷ qs) + 1 < fuel
    → Returns (λ r. Round p cs r.1 n (qs ++ (g ∷ []))) (sys_call kmalloc functions fuel c s)
unfolding OfPriority
sys_call-Round kmalloc functions fuel p c cs s g n qs i m =
    Returns-mono
      (sys_call-Switched kmalloc functions fuel c g n qs s (i.idles c (ground (arith, ==_refl c)))
        i.running i.started m)
      λ r done. record {
        running = rw (turn p g n qs (rank s.queues.pcb) i.priorities) at done.after;
        priorities = λ q h.
            ap (λ (f : ℕ → ℤ). f q) done.ranks
            ∙ i.priorities q (ground (arith, has-++ q qs (g ∷ [])));
        idles = λ x h. ap (λ (f : ℕ → Context). (f x).eax) done.contexts ∙ i.idles x (ground arith);
        started = rw (done.initial) i.started;
      }

idle_calls-Round :
    (kmalloc : ℕ → Heap → Run (ℕ × Heap)) (functions : HeapFunctions) (fuel : ℕ) (p : ℤ)
    (cs : List ℕ) (s : Kernel) (g n : ℕ) (before after : List ℕ)
    → Round p cs s g (before ++ (n ∷ after))
    → length cs ≡ length before + 1
    → length before + length after + 2 < fuel
    → Returns (λ t. Round p [] t n (after ++ (g ∷ before))) (idle_calls kmalloc functions fuel cs s)
unfolding idle_calls
idle_calls-Round kmalloc functions fuel p [] s g n before after i m k = absurd (omega arith)
idle_calls-Round kmalloc functions fuel p (c ∷ []) s g n [] after i m k =
    Returns-bind (sys_call-Round kmalloc functions fuel p c [] s g n after i (omega arith))
      λ r done. returns done
idle_calls-Round kmalloc functions fuel p (c ∷ d ∷ cs) s g n [] after i m k = absurd (omega arith)
idle_calls-Round kmalloc functions fuel p (c ∷ cs) s g n (b ∷ before) after i m k =
    Returns-bind
      (sys_call-Round kmalloc functions fuel p c cs s g b (before ++ (n ∷ after)) i
        (omega (arith, length-++ before (n ∷ after))))
      λ r done.
        Returns-mono
          (idle_calls-Round kmalloc functions fuel p cs r.1 b n before (after ++ (g ∷ []))
            (subst (λ qs. Round p cs r.1 b qs) (++-assoc before (n ∷ after) (g ∷ [])) done)
            (omega arith) (omega (arith, length-++ after (g ∷ []))))
          λ t last. subst (λ qs. Round p [] t n qs) (++-assoc after (g ∷ []) (b ∷ before)) last

-- Round robin. `g` runs, the ready queue is `before`, then `n`, then `after`; `g` and all of these
-- processes are in the state READY (none of them resumed or suspended) and have the same priority,
-- an initial context is set, and every caller makes the IDLE call: after as
-- many calls as the queue has processes up to `n`, with fuel beyond the queue's length, `n` runs, and the ready queue is `after`, then `g`,
-- then `before`.
pub idle_calls-turn :
    (kmalloc : ℕ → Heap → Run (ℕ × Heap)) (functions : HeapFunctions) (fuel : ℕ) (p : ℤ)
    (cs : List ℕ) (s : Kernel) (g n : ℕ) (before after : List ℕ)
    → IsRunning s g (before ++ (n ∷ after))
    → OfPriority p (rank s.queues.pcb) (g ∷ before ++ (n ∷ after))
    → ((c : ℕ) → has c cs ≡ true → (s.context c).eax ≡ pos 1)
    → (s.initial_context == null) ≡ false
    → length cs ≡ length before + 1
    → length before + length after + 2 < fuel
    → Returns (λ t. IsRunning t n (after ++ (g ∷ before))) (idle_calls kmalloc functions fuel cs s)
idle_calls-turn kmalloc functions fuel p cs s g n before after is same e i m k =
    Returns-mono
      (idle_calls-Round kmalloc functions fuel p cs s g n before after
        (record { running = is; priorities = same; idles = e; started = i }) m k)
      λ t done. done.running
