-- ===== src/Tests/CommandTests.antt =====
-- Processes "ab" at 5 (ready) and "cd" at 6 (suspended).
use mpx.Base.{ℕ, ◌≡◌, refl, ap, ◌↔◌, inl, inr, some, List, [], ◌∷◌, arith, ◌==◌, if◌then◌else◌}
use mpx.Base.Int.{pos, negsuc}
use mpx.Base.Run.{Returns}
use mpx.Base.Text.{codes}
use mpx.CString.Laws.{NoNul, c_string}
use mpx.Pcb.{ready, suspended, pcb_find}
use mpx.Pcb.Queue.{IsQueue}
use mpx.Pcb.Find.{AreNamed, Finds, pcb_find-Finds}
use mpx.Command.{Session}
use mpx.Command.Dispatch.{Command, word_of, commands, find_command, find_command_lem}
use mpx.Command.Priority.{change_priority, change_priority-IsQueue}
use mpx.Tests.PollTests.{typing}

abbrev name_of : ℕ → List ℕ
name_of p = if p == 5 then codes "ab" else codes "cd"

abbrev two_named : Session
two_named = record {
  queues = record {
    pcb = λ p. record {
      name = c_string (name_of p) (7 ∷ []);
      class = pos 1;
      priority = pos p;
      state = if p == 5 then pos 1 else negsuc 0;
      stack_top = 0;
      next_pcb = 0;
      prev_pcb = 0;
    };
    ready_head = 5;
    blocked_head = 0;
    suspended_head = 6;
  };
  serial = typing [] [];
  console = [];
  clock = λ r. 0;
  served = λ bytes after. after;
}

ready-alone : IsQueue ready two_named.queues (5 ∷ [])
ready-alone = record { linked = (refl, omega arith, refl); distinct = (refl, tt) }

suspended-alone : IsQueue suspended two_named.queues (6 ∷ [])
suspended-alone = record { linked = (refl, omega arith, refl); distinct = (refl, tt) }

ab-NoNul : NoNul (97 ∷ 98 ∷ [])
ab-NoNul = (omega arith, (omega arith, tt))

cd-NoNul : NoNul (99 ∷ 100 ∷ [])
cd-NoNul = (omega arith, (omega arith, tt))

suspended-AreNamed : AreNamed two_named.queues.pcb name_of (6 ∷ [])
suspended-AreNamed = ((cd-NoNul, (7 ∷ [], refl)), tt)

both-AreNamed : AreNamed two_named.queues.pcb name_of (5 ∷ 6 ∷ [])
both-AreNamed = ((ab-NoNul, (7 ∷ [], refl)), suspended-AreNamed)

pcb_find-Finds_example :
    Returns
      (λ (p, texts). Finds name_of (codes "cd") (5 ∷ 6 ∷ []) p)
      (pcb_find 3 (c_string (codes "cd") []) two_named.queues)
pcb_find-Finds_example =
    pcb_find-Finds 3 (codes "cd") [] two_named.queues name_of (5 ∷ []) (6 ∷ []) cd-NoNul ready-alone
      suspended-alone both-AreNamed (omega arith) (omega arith)

abbrev help_word : List ℕ
help_word = 104 ∷ 101 ∷ 108 ∷ 112 ∷ []

help-NoNul : NoNul help_word
help-NoNul = (omega arith, (omega arith, (omega arith, (omega arith, tt))))

find_command_example :
    Returns
      (λ found. (c : Command) → (found ≡ some c) ↔ (help_word ≡ codes (word_of c)))
      (find_command commands (c_string help_word (10 ∷ [])))
find_command_example = find_command_lem help_word (10 ∷ []) help-NoNul

abbrev first_byte : List ℕ → ℕ
first_byte [] = 0
first_byte (c ∷ cs) = c

cd-found : Finds name_of (codes "cd") (5 ∷ 6 ∷ []) 6
cd-found = inr (λ e. let h : 97 ≡ 99 = ap first_byte e in omega (arith, h), inl (refl, refl))

change_priority-IsQueue_example :
    Returns
      (λ d'.
        ((d'.queues.pcb 6).priority ≡ pos 9)
        × IsQueue ready d'.queues (5 ∷ [])
        × IsQueue suspended d'.queues (6 ∷ []))
      (change_priority 3 (c_string (codes "cd") []) (pos 9) two_named)
change_priority-IsQueue_example =
    change_priority-IsQueue 3 (codes "cd") [] (pos 9) name_of (5 ∷ []) (6 ∷ []) 6 two_named cd-NoNul
      ready-alone suspended-alone both-AreNamed (omega arith) (omega arith) cd-found (omega arith)
