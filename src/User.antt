-- ===== src/User.antt =====
-- user/core.c: the request of a user process, and what the test processes proc1 to proc5 do. A
-- request is a function of the caller's state that the caller gives.
pub mod Output
pub mod Processes
use Prim.Native.String.{String}
use mpx.Base.{
  ℕ, zero, suc, ◌+◌, ◌-◌, ◌&&◌, ◌||◌, List, [], ◌∷◌, ◌++◌, ◌==◌, if◌then◌else◌, take, drop, length,
  Option, none, some,
}
use mpx.Base.Int.{ℤ, pos, negsuc, eqb_ℤ}
use mpx.Base.Run.{Run, ok, fault, out_of_fuel, ◌>>=◌}
use mpx.Base.Text.{with_nul}
use mpx.CString.{memcpy, strlen}
use mpx.Serial.{OpCode, read, write, is_read, is_write, Serial, serial_poll, serial_out}

-- the result of `serial_out`
abbrev out_result : Option ℕ → ℤ
out_result none = negsuc 0
out_result (some n) = pos n

-- `sys_req` with the device, the buffer's bytes and the length that it takes for READ and WRITE. The
-- trap gives its result, the buffer and the driver; where that result is -1, the driver is called.
unfoldable pub sys_req :
    (trap : OpCode → (dev : ℕ) → List ℕ → (len : ℕ) → Serial → Run (ℤ × List ℕ × Serial))
    → OpCode
    → (dev : ℕ) → List ℕ
    → (len : ℕ) → Serial
    → Run (ℤ × List ℕ × Serial)
unfolding serial_out
sys_req trap op dev buffer len s =
    (if is_read op || is_write op then trap op dev buffer len s else trap op 0 [] 0 s)
    >>= λ (ret, buffer', s₁).
        let polled =
          serial_poll len buffer' s₁ >>= λ (n, read_bytes, s₂). ok (pos n, read_bytes, s₂) in
        let (count, s₂) = serial_out dev (take len buffer') s₁ in
        if eqb_ℤ ret (negsuc 0) && is_read op
        then polled
        else if eqb_ℤ ret (negsuc 0) && is_write op
        then ok (out_result count, buffer', s₂)
        else ok (ret, buffer', s₁)

-- `memcpy(output, text, strlen(text) + 1)`, and behind the text that `output` holds
unfoldable pub copy_text : (output text : List ℕ) → Run (List ℕ)
copy_text output text = strlen text >>= λ n. memcpy output text (n + 1)

unfoldable pub append_text : (output text : List ℕ) → Run (List ℕ)
unfolding copy_text
append_text output text =
    strlen output >>= λ k. copy_text (drop k output) text >>= λ tail. ok (take k output ++ tail)

-- the three copies that make an output line
unfoldable pub make_line : (output prefix procname : List ℕ) → Run (List ℕ)
unfolding copy_text append_text
make_line output prefix procname = copy_text output prefix >>= λ o₁.
    append_text o₁ procname >>= λ o₂. append_text o₂ (with_nul "\r\n")

module _ {S : Type 0} (write_line : List ℕ → S → Run S) (idle exit : S → Run S) where
  -- `sys_req(WRITE, COM1, output, strlen(output))`
  unfoldable pub write_output : List ℕ → S → Run S
  write_output output s = strlen output >>= λ n. write_line (take n output) s

  unfoldable pub dispatch_loop : (iterations : ℕ) → List ℕ → S → Run S
  unfolding write_output
  dispatch_loop zero output s = ok s
  dispatch_loop (suc n) output s =
      write_output output s >>= λ s₁. idle s₁ >>= λ s₂. dispatch_loop n output s₂

  -- the loop for a process that goes on after EXIT: it does not end
  unfoldable pub exit_loop : (fuel : ℕ) → List ℕ → S → Run S
  unfolding write_output
  exit_loop zero output s = out_of_fuel
  exit_loop (suc fuel) output s =
      write_output output s >>= λ s₁. exit s₁ >>= λ s₂. exit_loop fuel output s₂

  -- `old` is what the array of 100 bytes holds before; EXIT ends the process if it does not return.
  unfoldable pub r3_proc :
      (fuel : ℕ) → (old : List ℕ) → (iterations : ℕ) → (procname : List ℕ) → S → Run S
  unfolding make_line write_output dispatch_loop exit_loop
  r3_proc fuel old iterations procname s = make_line old (with_nul "dispatched ") procname >>= λ o₁.
      dispatch_loop iterations o₁ s >>= λ s₁. make_line o₁ (with_nul "exiting ") procname >>= λ o₂.
      write_output o₂ s₁ >>= λ s₂. exit s₂ >>= λ s₃.
      make_line o₂ (with_nul "FAILURE TO EXIT: ") procname >>= λ o₃. exit_loop fuel o₃ s₃
