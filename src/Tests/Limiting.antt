-- ===== src/Tests/Limiting.antt =====
-- Failed logins one after the other.
use swa_drive.Base.{◌≡◌, List, [], ◌∷◌, arith}
use swa_drive.Base.Text.{Text, codes}
use swa_drive.Auth.Limiter.{LimitEntry, LoginLimiter, zero_entry}
use swa_drive.Auth.Limiter.Blocking.{count_all, count_all-blocked}
use swa_drive.Auth.Limiter.Capacity.{
  Use, checks, fails, clears, use_all, IsBounded, use_all-IsBounded,
}

abbrev user : Text
user = codes "ada"

abbrev ip : Text
ip = codes "100.64.0.1"

abbrev seven_failures : LimitEntry
seven_failures = record {
  window_started = 1000000000;
  blocked_until = 0;
  last_seen = 7000000000;
  failures = 7;
}

abbrev limiter : LoginLimiter
limiter = record {
  account_entries = ((user, ip), seven_failures) ∷ [];
  ip_entries = (ip, seven_failures) ∷ [];
  max_entries = 1;
  last_cleanup = 1000000000;
}

count_all-blocked_example :
    ((count_all zero_entry (5 ∷ 6 ∷ 7 ∷ []) 3).failures ≡ 3)
    × ((count_all zero_entry (5 ∷ 6 ∷ 7 ∷ []) 3).blocked_until ≡ 900000000007)
count_all-blocked_example =
    count_all-blocked 5 3 (6 ∷ 7 ∷ []) (omega arith) (omega arith, (omega arith, tt))

-- Room for two more accounts.
abbrev roomy : LoginLimiter
roomy = record limiter { max_entries = 3 }

abbrev meanwhile : List Use
meanwhile =
    checks user ip 8500000000
    ∷ fails (0, 0) (codes "bob") ip 8600000000
    ∷ fails (0, 0) user ip 8700000000
    ∷ clears (codes "bob") ip
    ∷ []

abbrev calls : List Use
calls = fails (0, 0) (codes "bob") ip 8000000000 ∷ checks user ip 9000000000 ∷ clears user ip ∷ []

use_all-IsBounded_example : IsBounded (use_all calls limiter)
use_all-IsBounded_example = use_all-IsBounded calls limiter (omega arith, omega arith, omega arith)
