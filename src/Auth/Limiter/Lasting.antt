-- ===== src/Auth/Limiter/Lasting.antt =====
-- A block outlasts the calls that follow it.
use swa_drive.Base.{ℕ, ◌+◌, ◌≤◌, ◌≡◌, Bool, not, ◌&&◌, ◌||◌, some, leb}
use swa_drive.Base.Text.{Text}
use swa_drive.Auth.Limiter.{
  LimitEntry, LoginLimiter, lookup, same_account, login_failure_window, login_block_duration,
}
use swa_drive.Auth.Limiter.Capacity.{Use, checks, fails, clears}

module _ (user ip : Text) (start now later : ℕ) where
  -- A call not after `later` that neither clears the account nor records a failure of it out of the
  -- window or from before `now`.
  abbrev pub leaves : Use → Bool
  leaves (checks u a t) = leb t later
  leaves (fails c u a t) =
      leb t later
      && (not (same_account (u, a) (user, ip)) || leb now t && leb t (start + login_failure_window))
  leaves (clears u a) = not (same_account (u, a) (user, ip))

  -- The account's bucket in the window, with its failures, blocked as long as the failure at `now`
  -- blocks it.
  abbrev IsHeld : LoginLimiter → Type 0
  IsHeld l =
      (e : LimitEntry) × (lookup same_account (user, ip) l.account_entries ≡ some e)
      × (e.window_started ≡ start)
      × (7 ≤ e.failures)
      × (now + login_block_duration ≤ e.blocked_until)
