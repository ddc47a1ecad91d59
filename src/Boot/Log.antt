-- ===== src/Boot/Log.antt =====
-- Which of kmain's messages are sent.
use Prim.Native.String.{String}
use mpx.Base.{ℕ, List, [], ◌∷◌, ◌++◌}
use mpx.Base.Text.{codes}
use mpx.Serial.{Serial}

-- a line of the log
abbrev pub log_line : String → List ℕ
log_line msg = (codes "klogv: " ++ codes msg) ++ 13 ∷ 10 ∷ []
