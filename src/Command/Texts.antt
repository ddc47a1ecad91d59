-- ===== src/Command/Texts.antt =====
-- The commands of user/commhand.c that write fixed texts: help, menu and version; and shutdown.
use Prim.Native.String.{String}
use mpx.Base.{ℕ, none, some, List, [], ◌∷◌, if◌then◌else◌, drop}
use mpx.Base.Int.{pos, eqb_ℤ}
use mpx.Base.Run.{Run, ok, ◌>>=◌}
use mpx.Base.Text.{with_nul}
use mpx.CString.{strtok, strcmp}
use mpx.Serial.{put, serial_poll}
use mpx.Command.{Session, say, separators}

-- a WRITE request for each text
unfoldable pub say_all : List String → Session → Session
unfolding say
say_all [] d = d
say_all (text ∷ texts) d = say_all texts (say text d)

unfoldable pub help : Session → Session
unfolding say_all
help d =
    say_all
      ("\nThe 'alarm' command puts a process in the blocked state and moves it to the appropriate queue."
        ∷ "\nThe 'delete pcb' command removes the requested process from the queue and frees the associate memory."
        ∷ "\nThe 'getdate' command retrieves the date."
        ∷ "\nThe 'gettime' command retrieves the time."
        ∷ "\nThe 'loadR3' command loads and queues predetermined processes."
        ∷ "\nThe 'resumePCB' command unsuspends the process and moves it to the appropriate queue."
        ∷ "\nThe 'setdate' command allows user to set the date."
        ∷ "\nThe 'settime' command allows the user to set the time."
        ∷ "\nThe 'setPCBpriority' command changes the priority of the process and moves it to the appropriate queue."
        ∷ "\nThe 'show all' command shows all of the following information for all processes in any state: name, class, state, suspended status and priority."
        ∷ "\nThe 'showPCB' command displays the process's name, class, state, suspend status and priority."
        ∷ "\nThe 'show ready' command shows all of the following information for all processes in the ready state: name, class, state, suspended status and priority."
        ∷ "\nThe 'shutdown' command exits to the main function and requires confirmation."
        ∷ "\nThe 'suspendPCB' command suspends the process and moves it to the appropriate queue."
        ∷ "\nThe 'version' command prints the current version of MPX and the compilation date."
        ∷ [])
      d

unfoldable pub menu : Session → Session
unfolding say_all
menu d =
    say_all
      ("\n\nHello! Please type one of the following from the menu." ∷ "\nType 'alarm'"
        ∷ "\nType 'deletePCB'" ∷ "\nType 'help'" ∷ "\nType 'getdate'" ∷ "\nType 'gettime'"
        ∷ "\nType 'loadR3'" ∷ "\nType 'resumePCB'" ∷ "\nType 'setdate'" ∷ "\nType 'setPCBpriority'"
        ∷ "\nType 'settime'" ∷ "\nType 'showall'" ∷ "\nType 'showPCB'" ∷ "\nType 'showready'"
        ∷ "\nType 'shutdown'" ∷ "\nType 'suspendPCB'" ∷ "\nType 'version'"
        ∷ "\nPlease enter a command here : " ∷ [])
      d

unfoldable pub version : Session → Session
unfolding say
version d = say "\nThe current version of MPX is: R6." d

-- `exit` is the EXIT request, `old` what the array of 10 bytes holds before.
unfoldable pub shutdown : (exit : Session → Run Session) → (old : List ℕ) → Session → Run Session
unfolding say
shutdown exit old d =
    let d₁ = say "\nWould you like to initiate system shutdown? (yes/no): " d in
    serial_poll 10 old d₁.serial >>= λ (n, line, port). put line n 0 >>= λ buf.
    strtok (record { bytes = buf; tok_tmp = none }) (some 0) separators >>= λ (word, t).
    let d₂ = record d₁ { serial = port } in
    elim word [
      | none ↦ ok d₂
      | some i ↦ strcmp (drop i t.bytes) (with_nul "yes") >>= λ r.
          if eqb_ℤ r (pos 0)
          then exit (say "\nShutting down the system...\n" d₂)
          else ok (say "\nShutdown canceled or invalid input. \n" d₂)
    ]
