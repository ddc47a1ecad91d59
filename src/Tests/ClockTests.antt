-- ===== src/Tests/ClockTests.antt =====
-- The date 31/12/24 and the times 23:45:12 typed, and 02:45:12 in the clock.
use mpx.Base.{ℕ, ◌≡◌, refl, some, none, List, [], ◌∷◌, ◌++◌, arith, ◌==◌, if◌then◌else◌}
use mpx.Base.Int.{pos}
use mpx.Base.Run.{ok, ◌>>=◌, Returns}
use mpx.Base.Text.{codes}
use mpx.SysMem.{HeapFunctions, sys_alloc_mem}
use mpx.Serial.Poll.{Key, typed}
use mpx.Command.{Session, zeros}
use mpx.Command.Clock.{get_date, get_time, set_date, set_time}
use mpx.Command.Clock.Date.{register, date_word, IsDate}
use mpx.Command.Clock.RoundTrip.{get_date-set_date}
use mpx.Command.Clock.Time.{bcd, hour_shown, clock_text, IsTime, get_time-shown, set_time-registers}
use mpx.Tests.PollTests.{typing}

abbrev keys : List ℕ → List Key
keys [] = []
keys (c ∷ cs) = record { waits = []; ready = 48; char = c } ∷ keys cs

abbrev enter_key : Key
enter_key = record { waits = 48 ∷ []; ready = 48; char = 13 }

abbrev console_of : List ℕ → Session
console_of inputs = record {
  queues = record {
    pcb = λ p. record {
      name = [];
      class = pos 1;
      priority = pos 1;
      state = pos 1;
      stack_top = 0;
      next_pcb = 0;
      prev_pcb = 0;
    };
    ready_head = 0;
    blocked_head = 0;
    suspended_head = 0;
  };
  serial = typing inputs [];
  console = [];
  clock = λ r. 0;
  served = λ bytes after. after;
}

abbrev date_typed : Session
date_typed = console_of (typed (keys (date_word 3 1 1 2 2 4)) (typed (enter_key ∷ []) []))

last_day : IsDate 3 1 1 2 2 4
last_day = record {
  digits = (omega arith, omega arith, omega arith, omega arith, omega arith, omega arith);
  day = (omega arith, omega arith);
  month = (omega arith, omega arith);
}

get_date-set_date_example :
    Returns
      (λ s'.
        s'.console
        ≡ (([] ++ codes "\nEnter date (DD/MM/YY): " ∷ [])
            ++ codes "\nDate set successfully. \n" ∷ [])
          ++ (10 ∷ date_word 3 1 1 2 2 4 ++ 10 ∷ []) ∷ [])
      (set_date (zeros 12) date_typed >>= get_date)
get_date-set_date_example =
    get_date-set_date 3 1 1 2 2 4 (keys (date_word 3 1 1 2 2 4)) enter_key (zeros 12) [] date_typed
      last_day refl refl refl refl

abbrev no_functions : HeapFunctions
no_functions = record { malloc_function = none; free_function = none }

abbrev early : Session
early = record (console_of []) {
  clock = λ r. if r == 4 then bcd 0 2 else if r == 2 then bcd 4 5 else bcd 1 2;
}

gives_memory :
    sys_alloc_mem (λ size h. ok (104, h)) no_functions 12 early.serial.heap
    ≡ ok (104, early.serial.heap)
unfolding sys_alloc_mem
gives_memory = refl

get_time-shown_example :
    Returns
      (λ (shown, s').
        (shown ≡ some (clock_text (hour_shown 2) 4 5 1 2 ++ 0 ∷ []))
        × (s'.console ≡ [] ++ clock_text (hour_shown 2) 4 5 1 2 ∷ []))
      (get_time (λ size h. ok (104, h)) no_functions early)
get_time-shown_example =
    get_time-shown (λ size h. ok (104, h)) no_functions 0 2 4 5 1 2 104 early.serial.heap early
      (omega arith) (omega arith) (omega arith) (omega arith, omega arith, omega arith, omega arith)
      refl refl refl gives_memory (omega arith)

abbrev time_typed : Session
time_typed = console_of (typed (keys (codes "23:45:12")) (typed (enter_key ∷ []) []))

evening : IsTime 2 3 4 5 1 2
evening = record {
  digits = (omega arith, omega arith, omega arith, omega arith, omega arith, omega arith);
  hour = omega arith;
  minutes = omega arith;
}

set_time-registers_example :
    Returns
      (λ s'.
        (register 4 s'.serial.outputs ≡ 23)
        × (register 2 s'.serial.outputs ≡ 42)
        × (register 0 s'.serial.outputs ≡ 1))
      (set_time (0 ∷ []) (zeros 20) time_typed)
set_time-registers_example =
    set_time-registers 2 3 4 5 1 2 (keys (codes "23:45:12")) enter_key [] (zeros 20) [] time_typed
      evening refl refl refl refl
