-- ===== src/Tests/FrameTests.antt =====
-- A bitmap of two words, where the first 33 frames are in use; and the start of paging with 64 free
-- frames.
use mpx.Base.{ℕ, zero, suc, ◌≡◌, refl, Bool, true, false, List, [], ◌∷◌, arith}
use mpx.Base.Run.{Returns}
use mpx.Vm.{Paging, PageEntry, find_free, new_frame}
use mpx.Vm.Init.{vm_init}
use mpx.Vm.Start.{Paged, vm_init-Paged}
use mpx.Vm.Frames.{bitmap, first_clear, FrameOutcome, find_free_lem, new_frame_lem}

abbrev bits : ℕ → Bool → List Bool
bits zero b = []
bits (suc n) b = b ∷ bits n b

abbrev two_word_frames : List (List Bool)
two_word_frames = bits 32 true ∷ (true ∷ bits 31 false) ∷ []

abbrev empty_page : PageEntry
empty_page = record { present = false; writeable = false; usermode = false; frameaddr = 0 }

find_free_example : find_free two_word_frames ≡ first_clear (bitmap two_word_frames)
find_free_example = find_free_lem two_word_frames (refl, (refl, tt))

new_frame_example :
    FrameOutcome
      (first_clear (bitmap two_word_frames))
      (bitmap two_word_frames)
      (new_frame empty_page two_word_frames)
new_frame_example = new_frame_lem empty_page two_word_frames (refl, (refl, tt)) (omega arith) refl

abbrev pub start_paging : Paging
start_paging = record {
  frames = bits 32 false ∷ bits 32 false ∷ [];
  tables = λ i. 0;
  tables_phys = λ i. 0;
  page = λ a. empty_page;
  phys_alloc_addr = 4096;
  heap_addr = 0xd000000;
  heap_is_initialized = false;
}

vm_init-Paged_example : Returns (Paged 64 4096 0xd000000) (vm_init 1024 start_paging)
vm_init-Paged_example =
    vm_init-Paged 1024 4096 64 start_paging refl refl (omega arith) (omega arith) (λ a h. refl)
      (record { words = (refl, (refl, tt)); bits = refl }) (omega arith) (omega arith) (omega arith)
