-- ===== src/User/Processes.antt =====
-- The process functions of user/core.c: proc1 to proc5 and the idle process.
use Prim.Native.String.{String}
use mpx.Base.{ℕ, zero, suc, List}
use mpx.Base.Run.{Run, out_of_fuel, ◌>>=◌}
use mpx.Base.Text.{with_nul}
use mpx.User.{r3_proc}

-- the test processes
pub data Proc : Type 0 where
  proc1 proc2 proc3 proc4 proc5 : Proc

-- RC_1 to RC_5, and the name that `__func__` is
unfoldable pub repeat_count : Proc → ℕ
repeat_count proc1 = 1
repeat_count proc2 = 2
repeat_count proc3 = 3
repeat_count proc4 = 4
repeat_count proc5 = 5

unfoldable pub func_name : Proc → String
func_name proc1 = "proc1"
func_name proc2 = "proc2"
func_name proc3 = "proc3"
func_name proc4 = "proc4"
func_name proc5 = "proc5"

module _ {S : Type 0} (write_line : List ℕ → S → Run S) (idle exit : S → Run S) where
  unfoldable pub run_proc : (fuel : ℕ) → (old : List ℕ) → Proc → S → Run S
  unfolding repeat_count func_name
  run_proc fuel old p s =
      r3_proc write_line idle exit fuel old (repeat_count p) (with_nul (func_name p)) s

-- The idle process does not end.
unfoldable pub sys_idle_process : {S : Type 0} → (idle : S → Run S) → (fuel : ℕ) → S → Run S
sys_idle_process idle zero s = out_of_fuel
sys_idle_process idle (suc fuel) s = idle s >>= sys_idle_process idle fuel
