-- ===== src/Serial/Queue.antt =====
-- The queue of requests that io_scheduler of kernel/serial.c keeps, as a list of addresses.
use mathlib.Core.Path.{subst}
use mpx.Base.{
  ℕ, zero, suc, ◌<◌, ◌≤◌, ◌≡◌, refl, ◌∙◌, ap, sym, true, false, ◌||◌, List, [], ◌∷◌, ◌++◌, arith,
  ◌==◌, length,
}
use mpx.Base.Run.{Run, ok, ◌>>=◌, Returns, returns}
use mpx.Pcb.Queue.{has, Distinct}
use mpx.Serial.{null, Iocb, Serial}
use mpx.Serial.Requests.{update, set_next, append_request, enqueue}

-- From `p` the `next` pointers lead through the requests in order, and then to NULL.
abbrev pub Chained : (ℕ → Iocb) → ℕ → List ℕ → Type 0
Chained f p [] = p ≡ null
Chained f p (r ∷ rs) = (p ≡ r) × (0 < r) × Chained f (f r).next rs

pub record IsRequests (s : Serial) (rs : List ℕ) : Type 0 where
  pub chained : Chained s.iocb s.port.io_head rs
  pub distinct : Distinct rs

Chained-frame :
    (f g : ℕ → Iocb) (p : ℕ) (rs : List ℕ)
    → ((q : ℕ) → has q rs ≡ true → g q ≡ f q)
    → Chained f p rs
    → Chained g p rs
Chained-frame f g p [] same l = l
Chained-frame f g p (r ∷ rs) same l = (
  l.0,
  l.1,
  rw (same r (ground arith)) (Chained-frame f g (f r).next rs (λ x h. same x (ground arith)) l.2),
)

-- the last of a list that starts with `r`
abbrev last : ℕ → List ℕ → ℕ
last r [] = r
last r (q ∷ rs) = last q rs

has-last : (r : ℕ) (rs : List ℕ) → has (last r rs) (r ∷ rs) ≡ true
has-last r [] = ground arith
has-last r (q ∷ rs) = ground (arith, has-last q rs)

-- The last request points to `temp`, and `temp` to NULL.
Chained-append :
    (f : ℕ → Iocb) (r temp : ℕ) (rs : List ℕ)
    → 0 < temp
    → (f temp).next ≡ null
    → has temp (r ∷ rs) ≡ false
    → Distinct (r ∷ rs)
    → Chained f r (r ∷ rs)
    → Chained (set_next f (last r rs) temp) r (r ∷ rs ++ temp ∷ [])
Chained-append f r temp [] low end out d l = (refl, l.1, ground arith)
Chained-append f r temp (q ∷ rs) low end out d l =
    let away : (last q rs == r) ≡ false = ground (arith, has-last q rs, d.0) in
    let kept : (set_next f (last q rs) temp r).next ≡ q = ground (arith, away, l.2.0) in
    (
      refl,
      l.1,
      rw kept (Chained-append f q temp rs low end (ground arith) d.1 (refl, l.2.1, l.2.2)),
    )

append_request-stop :
    (fuel iter temp : ℕ) (f : ℕ → Iocb)
    → ((f iter).next == null) ≡ true
    → append_request (suc fuel) iter temp f ≡ ok (set_next f iter temp)
unfolding append_request
append_request-stop fuel iter temp f e = rw e refl

append_request-go :
    (fuel iter temp : ℕ) (f : ℕ → Iocb)
    → ((f iter).next == null) ≡ false
    → append_request (suc fuel) iter temp f ≡ append_request fuel (f iter).next temp f
unfolding append_request
append_request-go fuel iter temp f e = rw e refl

append_request_lem :
    (fuel r temp : ℕ) (f : ℕ → Iocb) (rs : List ℕ)
    → Chained f r (r ∷ rs)
    → length rs < fuel
    → append_request fuel r temp f ≡ ok (set_next f (last r rs) temp)
append_request_lem zero r temp f rs l m = absurd (omega arith)
append_request_lem (suc fuel) r temp f [] l m = append_request-stop fuel r temp f (ground arith)
append_request_lem (suc fuel) r temp f (q ∷ rs) l m =
    append_request-go fuel r temp f (ground arith)
    ∙ ap (λ n. append_request fuel n temp f) l.2.0
    ∙ append_request_lem fuel q temp f rs (refl, l.2.1, l.2.2) (omega arith)

-- Nothing of a request but its link differs.
abbrev pub SameButLink : (ℕ → Iocb) → (ℕ → Iocb) → ℕ → Type 0
SameButLink f g q = g q ≡ record (f q) { next = (g q).next }

-- what is left by putting `temp` at the end of `rs`
pub record Enqueued (temp : ℕ) (request : Iocb) (rs : List ℕ) (s s' : Serial) : Type 0 where
  pub requests : IsRequests s' (rs ++ temp ∷ [])
  pub mine : SameButLink (λ q. request) s'.iocb temp
  pub others : (q : ℕ) → (q == temp) ≡ false → SameButLink s.iocb s'.iocb q
  pub driver :
      s' ≡ record s { iocb = s'.iocb; port = record (s.port) { io_head = s'.port.io_head } }

Distinct-append :
    (temp : ℕ) (rs : List ℕ) → has temp rs ≡ false → Distinct rs → Distinct (rs ++ temp ∷ [])
Distinct-append temp [] out d = (refl, tt)
Distinct-append temp (r ∷ rs) out d =
    (ground (arith, has-append temp r rs), Distinct-append temp rs (ground arith) d.1)
  where
    has-append : (temp r : ℕ) (rs : List ℕ) → has r (rs ++ temp ∷ []) ≡ (has r rs || r == temp)
    has-append temp r [] = ground arith
    has-append temp r (q ∷ rs) = ground (arith, has-append temp r rs)

-- the request blocks once the new one is written and linked behind `r ∷ rs`
linked_blocks : ℕ → Iocb → ℕ → List ℕ → (ℕ → Iocb) → ℕ → Iocb
linked_blocks temp request r rs f =
    set_next (set_next (update f temp request) (last r rs) temp) temp null

enqueue-first :
    (fuel temp : ℕ) (request : Iocb) (s : Serial)
    → (s.port.io_head == null) ≡ true
    → enqueue fuel temp request s
      ≡ ok (record s {
        iocb = update s.iocb temp request;
        port = record (s.port) { io_head = temp };
      })
unfolding enqueue
enqueue-first fuel temp request s e = simp e refl

enqueue-walk :
    (fuel temp : ℕ) (request : Iocb) (s : Serial)
    → (s.port.io_head == null) ≡ false
    → enqueue fuel temp request s ≡ (
        append_request fuel s.port.io_head temp (update s.iocb temp request) >>= λ g.
        ok (record s { iocb = set_next g temp null }))
unfolding enqueue
enqueue-walk fuel temp request s e = simp e refl

enqueue-behind :
    (fuel temp : ℕ) (request : Iocb) (s : Serial) (r : ℕ) (rs : List ℕ)
    → Chained (update s.iocb temp request) r (r ∷ rs)
    → s.port.io_head ≡ r
    → length rs < fuel
    → enqueue fuel temp request s ≡ ok (record s { iocb = linked_blocks temp request r rs s.iocb })
unfolding linked_blocks
enqueue-behind fuel temp request s r rs l e m =
    let busy : (s.port.io_head == null) ≡ false = ground (arith, l.1) in
    enqueue-walk fuel temp request s busy
    ∙ ap (λ (g : Run (ℕ → Iocb)). g >>= λ h. ok (record s { iocb = set_next h temp null }))
        (ap (λ h. append_request fuel h temp (update s.iocb temp request)) e
          ∙ append_request_lem fuel r temp (update s.iocb temp request) rs l m)

clear_link : (f : ℕ → Iocb) (p : ℕ) → (f p).next ≡ null → (q : ℕ) → set_next f p null q ≡ f q
clear_link f p e q = ground arith

SameButLink-linked :
    (temp : ℕ) (request : Iocb) (r : ℕ) (rs : List ℕ) (f : ℕ → Iocb) (q : ℕ)
    → SameButLink (update f temp request) (linked_blocks temp request r rs f) q
unfolding linked_blocks
SameButLink-linked temp request r rs f q = ground arith

relink :
    (a b : Iocb) (n : ℕ) → a ≡ b → ◌≡◌ {A = Iocb} (record a { next = n }) (record b { next = n })
relink a b n e = ap (λ (x : Iocb). record x { next = n }) e

new_blocks :
    (temp : ℕ) (request : Iocb) (rs : List ℕ) (f : ℕ → Iocb) (r : ℕ)
    → 0 < temp
    → request.next ≡ null
    → has temp (r ∷ rs) ≡ false
    → Distinct (r ∷ rs)
    → Chained f r (r ∷ rs)
    → Chained (linked_blocks temp request r rs f) r (r ∷ rs ++ temp ∷ [])
unfolding linked_blocks
new_blocks temp request rs f r low end out d l =
    let g = update f temp request in
    let old : Chained g r (r ∷ rs) = Chained-frame f g r (r ∷ rs) (λ q h. ground arith) l in
    let away : (last r rs == temp) ≡ false = ground (arith, has-last r rs, out) in
    Chained-frame (set_next g (last r rs) temp) (linked_blocks temp request r rs f) r
      (r ∷ rs ++ temp ∷ [])
      (λ q h. clear_link (set_next g (last r rs) temp) temp (ground (arith, away)) q)
      (Chained-append g r temp rs low (ground arith) out d old)

module _ (temp : ℕ) (request : Iocb) (low : 0 < temp) (end : request.next ≡ null) (s : Serial) where
  first_request :
      s.port.io_head ≡ null
      → Enqueued temp request [] s (record s {
        iocb = update s.iocb temp request;
        port = record (s.port) { io_head = temp };
      })
  first_request e = record {
    requests = record { chained = (refl, low, ground arith); distinct = (refl, tt) };
    mine = ground arith;
    others = λ q ne. ground arith;
    driver = refl;
  }

  later_request :
      (r : ℕ) (rs : List ℕ)
      → IsRequests s (r ∷ rs)
      → has temp (r ∷ rs) ≡ false
      → Enqueued temp request
          (r ∷ rs)
          s
          (record s { iocb = linked_blocks temp request r rs s.iocb })
  later_request r rs is out = record {
    requests = record {
      chained =
          subst (λ p. Chained (linked_blocks temp request r rs s.iocb) p (r ∷ rs ++ temp ∷ []))
            (sym is.chained.0)
            (new_blocks temp request rs s.iocb r low end out is.distinct
              (refl, is.chained.1, is.chained.2));
      distinct = Distinct-append temp (r ∷ rs) out is.distinct;
    };
    mine =
        SameButLink-linked temp request r rs s.iocb temp
        ∙ relink (update s.iocb temp request temp) request _ (ground arith);
    others = λ q ne.
        SameButLink-linked temp request r rs s.iocb q
        ∙ relink (update s.iocb temp request q) (s.iocb q) _ (ground arith);
    driver = refl;
  }

  -- The part of `io_scheduler` that fills a request's block and links it, before the test whether the
  -- driver is idle, puts the request at the end of the driver's queue, first in, first out: for a
  -- request block that is not NULL and not in the queue, with NULL as its link, and fuel for the
  -- queue's length, the queue is then the old one with that block behind it; the block has the
  -- request's fields, no field but the link of any other block changes, and nothing of the driver but
  -- these blocks and the queue's head (an idle driver goes on to the write or the read from there).
  pub enqueue_lem :
      (fuel : ℕ) (rs : List ℕ)
      → IsRequests s rs
      → has temp rs ≡ false
      → length rs ≤ fuel
      → Returns (Enqueued temp request rs s) (enqueue fuel temp request s)
  enqueue_lem fuel [] is out m =
      rw (enqueue-first fuel temp request s (ground (arith, is.chained)))
        (returns (first_request is.chained))
  enqueue_lem fuel (r ∷ rs) is out m =
      let old : Chained (update s.iocb temp request) r (r ∷ rs) =
        Chained-frame s.iocb (update s.iocb temp request) r (r ∷ rs) (λ q h. ground arith)
          (refl, is.chained.1, is.chained.2) in
      rw (enqueue-behind fuel temp request s r rs old is.chained.0 (omega arith))
        (returns (later_request r rs is out))
