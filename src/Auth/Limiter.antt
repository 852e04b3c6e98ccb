-- ===== src/Auth/Limiter.antt =====
-- The limiter of failed logins (server/internal/auth/limiter.go). Times are nanoseconds, and 0 is Go's
-- zero time. A Go map is a list of keys with their entries.
pub mod Blocking
pub mod Capacity
pub mod Room
pub mod Lasting
use swa_drive.Base.{
  ℕ, zero, suc, ◌+◌, ◌-◌, ◌≡◌, Bool, true, false, not, ◌&&◌, ◌||◌, Option, none, some, List, [],
  ◌∷◌, ltb, leb, ◌==◌, if◌then◌else◌, filter, length,
}
use swa_drive.Base.Text.{Text, text_eq}

abbrev pub account_failure_limit : ℕ
account_failure_limit = 8

abbrev pub ip_failure_limit : ℕ
ip_failure_limit = 40

abbrev pub login_failure_window : ℕ
login_failure_window = 300000000000

abbrev pub login_block_duration : ℕ
login_block_duration = 900000000000

abbrev pub cleanup_interval : ℕ
cleanup_interval = 60000000000

-- `loginLimitEntry`
pub record LimitEntry : Type 0 where
  pub window_started : ℕ
  pub blocked_until : ℕ
  pub last_seen : ℕ
  pub failures : ℕ

-- What a Go map gives for a missing key.
abbrev pub zero_entry : LimitEntry
zero_entry = record { window_started = 0; blocked_until = 0; last_seen = 0; failures = 0 }

-- The entry that `recordFailure` goes on with: that of a new window, if the old one is over.
unfoldable pub in_window : LimitEntry → ℕ → LimitEntry
in_window e now =
    if e.window_started == 0 || ltb login_failure_window (now - e.window_started)
    then record e { window_started = now; failures = 0; blocked_until = 0 }
    else e

-- `recordFailure`
unfoldable pub count_failure : LimitEntry → ℕ → ℕ → LimitEntry × Bool
unfolding in_window
count_failure e now limit =
    let open_entry = in_window e now in
    let failures = suc open_entry.failures in
    (
      record {
        window_started = open_entry.window_started;
        blocked_until =
            if leb limit failures then now + login_block_duration else open_entry.blocked_until;
        last_seen = now;
        failures = failures;
      },
      failures == limit,
    )

abbrev pub Table : Type 0 → Type 0
Table K = List (K × LimitEntry)

-- `removeOne`, which takes whichever entry the iteration begins with: the one at `choice`, or the last.
unfoldable pub remove_one : {K : Type 0} → ℕ → Table K → Table K
remove_one choice [] = []
remove_one zero (e ∷ es) = es
remove_one (suc n) (e ∷ []) = []
remove_one (suc n) (e ∷ f ∷ es) = e ∷ remove_one n (f ∷ es)

-- An entry that no block keeps and that was last seen before the longest time that it can matter.
abbrev pub is_stale : ℕ → LimitEntry → Bool
is_stale now e =
    ltb (e.last_seen + (login_block_duration + login_failure_window)) now
    && not (ltb now e.blocked_until)

abbrev pub keep_fresh : {K : Type 0} → ℕ → Table K → Table K
keep_fresh now = filter (λ e. not (is_stale now e.1))

-- How long a bucket is still blocked.
abbrev pub remaining : ℕ → Option LimitEntry → ℕ
remaining now none = 0
remaining now (some e) = if ltb now e.blocked_until then e.blocked_until - now else 0

abbrev pub entry_or_zero : Option LimitEntry → LimitEntry
entry_or_zero none = zero_entry
entry_or_zero (some e) = e

module _ {K : Type 0} (same : K → K → Bool) where
  unfoldable pub lookup : K → Table K → Option LimitEntry
  lookup k [] = none
  lookup k ((j, e) ∷ es) = if same j k then some e else lookup k es

  -- `m[k] = e`
  unfoldable pub assign : K → LimitEntry → Table K → Table K
  assign k e [] = (k, e) ∷ []
  assign k e ((j, f) ∷ es) =
      let rest = assign k e es in if same j k then (j, e) ∷ es else (j, f) ∷ rest

  unfoldable pub delete : K → Table K → Table K
  delete k es = filter (λ e. not (same e.0 k)) es

  unfoldable pub make_room : (choice max : ℕ) → K → Table K → Table K
  make_room choice max k es = elim (lookup k es) [
    | some e ↦ es
    | none ↦ if leb max (length es) then remove_one choice es else es
  ]

  -- One half of `RecordFailure`: room for a new key, then the failure.
  unfoldable pub record_in : (choice max : ℕ) → K → ℕ → (limit : ℕ) → Table K → Table K × Bool
  record_in choice max k now limit es =
      let room = make_room choice max k es in
      let (e, blocked) = count_failure (entry_or_zero (lookup k room)) now limit in
      (assign k e room, blocked)

pub record LoginLimiter : Type 0 where
  pub account_entries : Table (Text × Text)
  pub ip_entries : Table Text
  pub max_entries : ℕ
  pub last_cleanup : ℕ

abbrev pub same_account : Text × Text → Text × Text → Bool
same_account (u, a) (v, b) = text_eq u v && text_eq a b

unfoldable pub cleanup_if_due : ℕ → LoginLimiter → LoginLimiter
cleanup_if_due now l =
    if not (l.last_cleanup == 0) && ltb (now - l.last_cleanup) cleanup_interval
    then l
    else record l {
      account_entries = keep_fresh now l.account_entries;
      ip_entries = keep_fresh now l.ip_entries;
      last_cleanup = now;
    }

-- `Check`: how long to wait, and whether to; the new state.
unfoldable pub check : (username remote_ip : Text) → ℕ → LoginLimiter → (ℕ × Bool) × LoginLimiter
check username remote_ip now l =
    let clean = cleanup_if_due now l in
    let account = remaining now (lookup same_account (username, remote_ip) clean.account_entries) in
    let peer = remaining now (lookup text_eq remote_ip clean.ip_entries) in
    let retry_after = if ltb account peer then peer else account in
    ((retry_after, ltb 0 retry_after), clean)

-- `RecordFailure`: whether the account's bucket and the peer's crossed their limits; the new state.
-- `choices` is what the iterations over the two maps begin with.
unfoldable pub record_failure :
    (choices : ℕ × ℕ) (username remote_ip : Text) → ℕ → LoginLimiter → (Bool × Bool) × LoginLimiter
record_failure (a, b) username remote_ip now l =
    let clean = cleanup_if_due now l in
    let (accounts, account_blocked) =
      record_in same_account a clean.max_entries (username, remote_ip) now account_failure_limit
        clean.account_entries in
    let (peers, ip_blocked) =
      record_in text_eq b clean.max_entries remote_ip now ip_failure_limit clean.ip_entries in
    ((account_blocked, ip_blocked), record clean { account_entries = accounts; ip_entries = peers })

unfoldable pub clear : (username remote_ip : Text) → LoginLimiter → LoginLimiter
clear username remote_ip l = record l {
  account_entries = delete same_account (username, remote_ip) l.account_entries;
}
