-- ===== src/Tests/PollTests.antt =====
-- "hi" and return, typed with two status bytes without DR before the first key.
use mpx.Base.{ℕ, ◌≡◌, refl, true, List, [], ◌∷◌, arith}
use mpx.Base.Int.{pos}
use mpx.Base.Run.{ok}
use mpx.Serial.{com1, Serial, available, idle, serial_poll}
use mpx.Serial.Poll.{Key, serial_poll_line}

abbrev h_key : Key
h_key = record { waits = 48 ∷ 48 ∷ []; ready = 48; char = 104 }

abbrev i_key : Key
i_key = record { waits = []; ready = 48; char = 105 }

abbrev return_key : Key
return_key = record { waits = []; ready = 48; char = 13 }

abbrev pub typing : List ℕ → List (ℕ × ℕ) → Serial
typing inputs outputs = record {
  port = record {
    curr_dev = 0x3f8;
    status = available;
    operation = idle;
    event_flag = 0;
    counter = 0;
    count = pos 0;
    ring_buffer = [];
    ring_head = 0;
    ring_tail = 15;
    io_head = 0;
  };
  initialized = true ∷ [];
  iocb =
      λ p. record { curr_proc = 0; device = 0; curr_op = idle; buffer = 0; buf_size = 0; next = 0 };
  bytes = λ p. 0;
  heap = record { memlist = 0; word = λ a. 0 };
  inputs = inputs;
  outputs = outputs;
}

serial_poll_line_example :
    serial_poll 5
      (1 ∷ 2 ∷ 3 ∷ 4 ∷ 5 ∷ [])
      (typing (96 ∷ 96 ∷ 97 ∷ 104 ∷ 97 ∷ 105 ∷ 97 ∷ 13 ∷ 96 ∷ []) [])
    ≡ ok (
      3,
      104 ∷ 105 ∷ 13 ∷ 0 ∷ 5 ∷ [],
      typing (96 ∷ []) ((com1, 10) ∷ (com1, 13) ∷ (com1, 105) ∷ (com1, 104) ∷ []),
    )
serial_poll_line_example =
    serial_poll_line (h_key ∷ i_key ∷ []) return_key 5 (1 ∷ 2 ∷ 3 ∷ 4 ∷ 5 ∷ []) (96 ∷ [])
      (typing (96 ∷ 96 ∷ 97 ∷ 104 ∷ 97 ∷ 105 ∷ 97 ∷ 13 ∷ 96 ∷ []) []) (refl, refl, (refl, refl, tt))
      refl (omega arith) (omega arith) refl
