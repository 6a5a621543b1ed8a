-- ===== src/Tests/Pollfd.antt =====
-- Vectors of two slots.
use linux_modern_io_multiple.Prelude.{ℕ, suc, ◌≡◌, ◌≢◌, refl, arith, [], ◌∷◌}
use linux_modern_io_multiple.Prelude.Arrays.{swap_remove}
use mathlib.Core.List.{Perm}
use linux_modern_io_multiple.Prelude.Int.{pos}
use linux_modern_io_multiple.Prelude.Run.{ok}
use linux_modern_io_multiple.Pollfd.{
  Pollfd, PollfdVector, Answer, no_fd, pollfdv_add, pollfdv_remove_index,
}
use linux_modern_io_multiple.Pollfd.Invariant.{IsValid, Gives}
use linux_modern_io_multiple.Pollfd.Contents.{contents, pollfdv_add-append}
use linux_modern_io_multiple.Pollfd.Removal.{pollfdv_remove_index-swap_remove}

abbrev entry : ℕ → Pollfd
entry n = record { fd = pos n; events = 1; revents = 0 }

-- Both slots are in use.
abbrev full : PollfdVector
full = record {
  base = 64;
  slots = entry 5 ∷ entry 6 ∷ [];
  size = 2;
  capacity = 2;
  pd = 500 ∷ 600 ∷ [];
}

abbrev answer : ℕ → Answer
answer p = record {
  data_ptr = p;
  data_tail = entry 77 ∷ entry 78 ∷ [];
  pd_ptr = 128;
  pd_tail = 9 ∷ 9 ∷ [];
}

full-IsValid : IsValid full
full-IsValid = record {
  slots = refl;
  pd = refl;
  within = omega arith;
  some_room = omega arith;
  small = omega arith;
}

answer-Gives : Gives full (answer 96)
answer-Gives = record { slots = refl; pd = refl }

pollfdv_add-append_example :
    (v' : PollfdVector) × (pollfdv_add full (entry 7) 700 (answer 96) ≡ ok v')
    × IsValid v'
    × (contents v' ≡ (entry 5, 500) ∷ (entry 6, 600) ∷ (entry 7, 700) ∷ [])
unfolding contents
pollfdv_add-append_example =
    pollfdv_add-append full (entry 7) 700 (answer 96) full-IsValid answer-Gives (omega arith)
      (omega arith) (omega arith)

in_use : (entry 5).fd ≢ no_fd
in_use e = cc

pollfdv_remove_index-swap_remove_example :
    (v' : PollfdVector) × (pollfdv_remove_index full 0 ≡ ok v')
    × IsValid v'
    × (contents v' ≡ (entry 6, 600) ∷ [])
    × Perm ((entry 5, 500) ∷ contents v') ((entry 5, 500) ∷ (entry 6, 600) ∷ [])
    × (suc v'.size ≡ 2)
    × (v'.base ≡ 64)
unfolding contents swap_remove
pollfdv_remove_index-swap_remove_example =
    pollfdv_remove_index-swap_remove full 0 (entry 5) 500 full-IsValid (omega arith) refl in_use
