-- ===== src/Uring/Setup/Calls.antt =====
-- The two wrappers around `syscall` in code/c/server/io_uring/io_uring_server_utils.c: a failure is
-- handed on as `-errno`. What the kernel answers, and `errno`, are arguments.
use linux_modern_io_multiple.Prelude.{
  ℕ, suc, zero, ◌<◌, ◌≡◌, ◌≢◌, ◌⊎◌, inl, inr, refl, arith, false, [], ◌∷◌, ℕ_discrete,
  if◌then◌else◌,
}
use linux_modern_io_multiple.Prelude.Int.{ℤ, negsuc, sub_ℕ}
use linux_modern_io_multiple.Prelude.Run.{ok, exited}
use linux_modern_io_multiple.Time.{is_negative}
use linux_modern_io_multiple.Uring.Setup.{Params, has_flag, setup_sqpoll}
use linux_modern_io_multiple.Uring.Setup.Entering.{enter_getevents, iou_enter_or_wake}

-- The parameters are written by the kernel.
unfoldable pub io_uring_setup : (syscall : Params → ℤ × Params) (errno : ℕ) → Params → ℤ × Params
io_uring_setup syscall errno p =
    let (ret, q) = syscall p in (if is_negative ret then sub_ℕ 0 errno else ret, q)

unfoldable pub io_uring_enter : (syscall : ℤ) (errno : ℕ) → ℤ
io_uring_enter syscall errno = if is_negative syscall then sub_ℕ 0 errno else syscall

-- Without the kernel's polling thread, a call of `io_uring_enter` that fails ends the process, unless
-- a signal interrupted it: then the loop goes on.
pub iou_enter_or_wake-io_uring_enter :
    (setup_flags sq_flags to_submit errno m : ℕ)
    → has_flag setup_flags setup_sqpoll ≡ false
    → 0 < errno
    → ((errno ≡ 4)
        × (iou_enter_or_wake setup_flags sq_flags to_submit (io_uring_enter (negsuc m) errno)
            ≡ ok
                (record { to_submit = to_submit; min_complete = 1; flags = enter_getevents } ∷ [])))
      ⊎ ((errno ≢ 4)
          × (iou_enter_or_wake setup_flags sq_flags to_submit (io_uring_enter (negsuc m) errno)
              ≡ exited))
unfolding iou_enter_or_wake io_uring_enter
iou_enter_or_wake-io_uring_enter f g k zero m off some_error = absurd (omega arith)
iou_enter_or_wake-io_uring_enter f g k (suc e) m off some_error = elim (ℕ_discrete e 3) [
  | yes interrupted ↦ inl (omega arith, rw off (rw interrupted refl))
  | no other ↦ inr (omega arith, rw off (ground (arith, other)))
]
