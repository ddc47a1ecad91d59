-- ===== src/Tests/BootTests.antt =====
-- The start of the kernel with handlers at 1000 and on, and the listing of a heap of two blocks.
use Prim.Native.String.{String}
use mpx.Base.{
  ℕ, ◌≡◌, refl, true, false, List, [], ◌∷◌, ◌++◌, ◌+◌, ◌<◌, ◌^◌, ◌%◌, arith, ◌==◌, if◌then◌else◌,
}
use mpx.Base.Run.{Run, ok, ◌>>=◌, Returns}
use mpx.Heap.{Heap}
use mpx.Heap.Blocks.{Block, IsHeap}
use mpx.Serial.{Serial}
use mpx.Base.Text.{codes}
use mpx.CString.Laws.{c_string}
use mpx.Command.{zeros}
use mpx.User.{r3_proc}
use mpx.User.Output.{line, turns, failures, r3_proc-turns}
use mpx.Interrupts.{Gate, irq_init}
use mpx.Interrupts.Gates.{handler, Installed, irq_init-Installed}
use mpx.MemCommand.{free_blocks, mem_show}
use mpx.MemCommand.Listing.{printed_blocks, mem_show-printed}
use mpx.Tests.PollTests.{typing}

abbrev handlers : ℕ → ℕ
handlers i = 1000 + i % 17

abbrev pub empty_gates : ℕ → Gate
empty_gates i = record { base_low = 0; sselect = 0; zero_byte = 0; flags = 0; base_high = 0 }

handlers-small : (i : ℕ) → handlers i < 2 ^ 32
handlers-small i = omega arith

irq_init-Installed_example :
    Returns
      (λ t. (j : ℕ) → Installed (handler handlers 1015 2000 3000 j) (empty_gates j) (t j))
      (irq_init handlers 1015 2000 3000 empty_gates)
irq_init-Installed_example =
    irq_init-Installed handlers 1015 2000 3000 empty_gates handlers-small
      (omega arith, omega arith, omega arith)

abbrev closed_port : Serial
closed_port = record (typing (96 ∷ []) []) { initialized = false ∷ false ∷ [] }

abbrev mixed_heap : Heap
mixed_heap = record {
  memlist = 100;
  word = λ a. if a == 100 then 32 else if a == 136 then 43 else 0;
}

abbrev mixed_blocks : List Block
mixed_blocks = record { size = 32; free = false } ∷ record { size = 40; free = true } ∷ []

mixed_heap-IsHeap : IsHeap mixed_heap mixed_blocks
mixed_heap-IsHeap = record {
  chain = (refl, (refl, tt));
  fits = (omega arith, refl, (omega arith, refl, omega arith));
  inhabited = refl;
}

mem_show-printed_example :
    mem_show 3 free_blocks mixed_heap ≡ ok (printed_blocks free_blocks 100 mixed_blocks)
mem_show-printed_example =
    mem_show-printed 3 free_blocks mixed_heap mixed_blocks mixed_heap-IsHeap (omega arith)

-- A test process "p1" of two iterations whose requests all return; the state is the lines written.
abbrev record_line : List ℕ → List (List ℕ) → Run (List (List ℕ))
record_line text written = ok (written ++ text ∷ [])

r3_proc-turns_example :
    r3_proc record_line (λ s. ok s) (λ s. ok s) 1 (zeros 100) 2 (c_string (112 ∷ 49 ∷ []) []) [] ≡ (
      turns record_line (λ s. ok s) (λ s. ok s) 2 (line (codes "dispatched ") (112 ∷ 49 ∷ [])) []
      >>= λ s₁. record_line (line (codes "exiting ") (112 ∷ 49 ∷ [])) s₁ >>= λ s₂. ok s₂ >>= λ s₃.
          failures record_line
            (λ s. ok s)
            (λ s. ok s)
            1
            (line (codes "FAILURE TO EXIT: ") (112 ∷ 49 ∷ []))
            s₃)
r3_proc-turns_example =
    r3_proc-turns record_line (λ s. ok s) (λ s. ok s) 1 2 (zeros 100) (112 ∷ 49 ∷ []) [] []
      (omega arith, (omega arith, tt)) (omega arith) refl
