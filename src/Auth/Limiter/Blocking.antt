-- ===== src/Auth/Limiter/Blocking.antt =====
-- Who is blocked, and for how long.
use swa_drive.Base.{
  ℕ, suc, ◌+◌, ◌-◌, ◌≤◌, ◌<◌, ◌≡◌, refl, ap, ◌∙◌, Bool, true, false, not, ◌&&◌, some, List, [], ◌∷◌,
  ltb, leb, ◌==◌, if◌then◌else◌, length, arith, inl, inr, Bool-cases, All,
}
use swa_drive.Base.Text.{Text}
use swa_drive.Auth.Limiter.{
  LimitEntry, Table, LoginLimiter, zero_entry, lookup, assign, make_room, record_in, check,
  cleanup_if_due, keep_fresh, is_stale, same_account, entry_or_zero, count_failure, in_window,
  login_failure_window, login_block_duration,
}

-- A run of failures on one bucket.
abbrev pub count_all : LimitEntry → List ℕ → ℕ → LimitEntry
count_all e [] limit = e
count_all e (t ∷ ts) limit = count_all (count_failure e t limit).0 ts limit

abbrev pub last_of : ℕ → List ℕ → ℕ
last_of t [] = t
last_of t (u ∷ us) = last_of u us

-- The bucket after `n` failures in one window that began at `start`, the last of them at `t`.
abbrev after_failures : (start n t limit : ℕ) → LimitEntry
after_failures start n t limit = record {
  window_started = start;
  blocked_until = if leb limit n then t + login_block_duration else 0;
  last_seen = t;
  failures = n;
}

kept_window :
    (start n t u limit : ℕ)
    → 0 < start
    → u ≤ start + login_failure_window
    → in_window (after_failures start n t limit) u ≡ after_failures start n t limit
unfolding in_window
kept_window start n t u limit p h = ground arith

below_limit : (limit n : ℕ) → leb limit (suc n) ≡ false → leb limit n ≡ false
below_limit limit n h = ground arith

count_failure-next :
    (start n t u limit : ℕ)
    → 0 < start
    → u ≤ start + login_failure_window
    → (count_failure (after_failures start n t limit) u limit).0
      ≡ after_failures start (suc n) u limit
unfolding count_failure in_window
count_failure-next start n t u limit p h =
    let kept : in_window (after_failures start n t limit) u ≡ after_failures start n t limit =
      kept_window start n t u limit p h in
    elim (Bool-cases (leb limit (suc n))) [
      | inl full ↦ rw (kept, count_failure, full)
      | inr free ↦ rw (kept, count_failure, free, below_limit limit n free)
    ]

count_all-next :
    (start n t limit : ℕ) (ts : List ℕ)
    → 0 < start
    → All (λ u. u ≤ start + login_failure_window) ts
    → count_all (after_failures start n t limit) ts limit
      ≡ after_failures start (n + length ts) (last_of t ts) limit
count_all-next start n t limit [] p h = ap (λ k. after_failures start k t limit) (omega arith)
count_all-next start n t limit (u ∷ us) p (h, hs) = rw (count_failure-next start n t u limit p h) (
    count_all-next start (suc n) u limit us p hs
    ∙ ap (λ k. after_failures start k (last_of u us) limit) (omega arith))

count_failure-first :
    (start limit : ℕ)
    → (count_failure zero_entry start limit).0 ≡ after_failures start 1 start limit
unfolding count_failure in_window
count_failure-first start limit = refl

-- A bucket that was empty, and then counts failures at `start` and at the times `ts`, all of them
-- within the five minutes after `start`: it has counted every one, and it is blocked until fifteen
-- minutes after the last one if they reach the limit, and not at all if they do not. (No time is the
-- zero time.)
pub count_all-blocked :
    (start limit : ℕ) (ts : List ℕ)
    → 0 < start
    → All (λ u. u ≤ start + 300000000000) ts
    → ((count_all zero_entry (start ∷ ts) limit).failures ≡ suc (length ts))
      × ((count_all zero_entry (start ∷ ts) limit).blocked_until
          ≡ (if leb limit (suc (length ts)) then last_of start ts + 900000000000 else 0))
count_all-blocked start limit ts p h =
    let all_counted =
      ap (λ e. count_all e ts limit) (count_failure-first start limit)
      ∙ count_all-next start 1 start limit ts p h in
    let number : 1 + length ts ≡ suc (length ts) = omega arith in
    (
      ap (λ e. e.failures) all_counted ∙ number,
      ap (λ e. e.blocked_until) all_counted
          ∙ ap (λ k. if leb limit k then last_of start ts + 900000000000 else 0) number,
    )

module _ {K : Type 0} (same : K → K → Bool) where
  lookup-keep_fresh :
      (k : K) (now : ℕ) (e : LimitEntry) (es : Table K)
      → is_stale now e ≡ false
      → lookup same k es ≡ some e
      → lookup same k (keep_fresh now es) ≡ some e
  unfolding lookup
  lookup-keep_fresh k now e [] s h = absurd (cc)
  lookup-keep_fresh k now e ((j, f) ∷ es) s h = elim (Bool-cases (same j k)) [
    | inl here ↦
        (let one : f ≡ e = ground arith in
          let fresh : is_stale now f ≡ false = ap (is_stale now) one ∙ s in
          rw (fresh, here) (ap some one))
    | inr past ↦
        (let rest = lookup-keep_fresh k now e es s (ground arith) in
          elim (Bool-cases (is_stale now f)) [
            | inl old ↦ rw old rest
            | inr new ↦ rw (new, past) rest
          ])
  ]

  pub lookup-assign :
      (k : K) (e : LimitEntry) (es : Table K)
      → same k k ≡ true
      → lookup same k (assign same k e es) ≡ some e
  unfolding lookup assign
  lookup-assign k e [] r = rw r
  lookup-assign k e ((j, f) ∷ es) r = elim (Bool-cases (same j k)) [
    | inl here ↦ rw (here, assign, here)
    | inr past ↦ rw (past, assign, past) (lookup-assign k e es r)
  ]

  pub lookup-record_in :
      (choice max : ℕ) (k : K) (now limit : ℕ) (e : LimitEntry) (es : Table K)
      → same k k ≡ true
      → lookup same k es ≡ some e
      → lookup same k (record_in same choice max k now limit es).0
        ≡ some (count_failure e now limit).0
  unfolding record_in make_room
  lookup-record_in choice max k now limit e es r h =
      rw (h, record_in, make_room)
        (lookup-assign k (count_failure (entry_or_zero (lookup same k es)) now limit).0 es r
          ∙ ap (λ o. some (count_failure (entry_or_zero o) now limit).0) h)

-- What the lookups after a cleanup still find.
pub lookup-cleanup :
    (user ip : Text) (now : ℕ) (l : LoginLimiter) (e : LimitEntry)
    → is_stale now e ≡ false
    → lookup same_account (user, ip) l.account_entries ≡ some e
    → lookup same_account (user, ip) (cleanup_if_due now l).account_entries ≡ some e
unfolding cleanup_if_due
lookup-cleanup user ip now l e s h =
    elim (Bool-cases (not (l.last_cleanup == 0) && ltb (now - l.last_cleanup) 60000000000)) [
      | inl early ↦ rw (early, cleanup_if_due) h
      | inr due ↦
          rw (due, cleanup_if_due)
            (lookup-keep_fresh same_account (user, ip) now e l.account_entries s h)
    ]

pub check-blocked :
    (user ip : Text) (now : ℕ) (l : LoginLimiter) (e : LimitEntry)
    → lookup same_account (user, ip) l.account_entries ≡ some e
    → now < e.blocked_until
    → ((check user ip now l).0.1 ≡ true) × (e.blocked_until - now ≤ (check user ip now l).0.0)
unfolding check
check-blocked user ip now l e h b =
    let found = lookup-cleanup user ip now l e (ground arith) h in
    rw (found, check) (ground arith, ground arith)
