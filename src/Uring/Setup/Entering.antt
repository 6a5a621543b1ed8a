-- ===== src/Uring/Setup/Entering.antt =====
-- Entering the kernel: `iou_enter_or_wake`.
use linux_modern_io_multiple.Prelude.{
  ◌≡◌, refl, Bool, true, false, ℕ, ◌||◌, List, [], ◌∷◌, not, if◌then◌else◌,
}
use linux_modern_io_multiple.Prelude.Int.{ℤ, negsuc, eqb_ℤ}
use linux_modern_io_multiple.Prelude.Run.{Run, ok, exited, ◌>>◌}
use linux_modern_io_multiple.Time.{is_negative}
use linux_modern_io_multiple.Uring.Setup.{has_flag, setup_sqpoll, iou_config_params}

-- A call of `io_uring_enter`.
pub record EnterCall : Type 0 where
  pub to_submit : ℕ
  pub min_complete : ℕ
  pub flags : ℕ

abbrev pub enter_getevents : ℕ
enter_getevents = 1

abbrev pub enter_sq_wakeup : ℕ
enter_sq_wakeup = 2

abbrev pub sq_need_wakeup : ℕ
sq_need_wakeup = 1

-- `-EINTR`
abbrev pub eintr : ℤ
eintr = negsuc 3

-- `io_uring_assert((rc >= 0) || (rc == -EINTR), ...)`
abbrev pub assert_entered : ℤ → Run (Unit {0})
assert_entered rc = if not (is_negative rc) || eqb_ℤ rc eintr then ok tt else exited

-- The flags of the configuration and of the submission ring, the number to submit, and what the call
-- answers; the result is the calls made.
unfoldable pub iou_enter_or_wake : (setup_flags sq_flags to_submit : ℕ) → ℤ → Run (List EnterCall)
iou_enter_or_wake setup_flags sq_flags to_submit rc =
    if not (has_flag setup_flags setup_sqpoll)
    then (assert_entered rc
        >> ok (record { to_submit = to_submit; min_complete = 1; flags = enter_getevents } ∷ []))
    else (if has_flag sq_flags sq_need_wakeup
        then (assert_entered rc
            >> ok (record { to_submit = 0; min_complete = 0; flags = enter_sq_wakeup } ∷ []))
        else ok [])

-- The flag on which `iou_enter_or_wake` decides is set where the configuration asks for polling.
iou_config_params-has_flag :
    (use_kernel_pooling : Bool)
    → has_flag (iou_config_params use_kernel_pooling).flags setup_sqpoll ≡ use_kernel_pooling
unfolding iou_config_params
iou_config_params-has_flag true = refl
iou_config_params-has_flag false = refl
