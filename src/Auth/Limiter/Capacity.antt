-- ===== src/Auth/Limiter/Capacity.antt =====
-- The limiter's memory is bounded.
use swa_drive.Base.{
  ℕ, zero, suc, ◌-◌, ◌≤◌, ◌≡◌, refl, Bool, not, ◌&&◌, Option, none, some, List, [], ◌∷◌, ltb, leb,
  ◌==◌, length, arith, inl, inr, Bool-cases, length-filter-le,
}
use swa_drive.Base.Text.{Text, text_eq}
use swa_drive.Auth.Limiter.{
  LimitEntry, Table, remove_one, lookup, assign, delete, record_in, make_room, LoginLimiter,
  cleanup_if_due, check, record_failure, clear, count_failure, is_stale, same_account,
  entry_or_zero,
}

-- The calls of the service, with what the environment chooses.
pub data Use : Type 0 where
  checks : (username remote_ip : Text) (now : ℕ) → Use
  fails : (choices : ℕ × ℕ) (username remote_ip : Text) (now : ℕ) → Use
  clears : (username remote_ip : Text) → Use

abbrev pub use_limiter : Use → LoginLimiter → LoginLimiter
use_limiter (checks u ip now) l = (check u ip now l).1
use_limiter (fails choices u ip now) l = (record_failure choices u ip now l).1
use_limiter (clears u ip) l = clear u ip l

abbrev pub use_all : List Use → LoginLimiter → LoginLimiter
use_all [] l = l
use_all (c ∷ cs) l = use_all cs (use_limiter c l)

pub length-remove_one :
    {K : Type 0} (n : ℕ) (es : Table K) → length (remove_one n es) ≡ length es - 1
unfolding remove_one
length-remove_one n [] = omega arith
length-remove_one zero (e ∷ es) = omega arith
length-remove_one (suc n) (e ∷ []) = omega arith
length-remove_one (suc n) (e ∷ f ∷ es) = omega (arith, length-remove_one n (f ∷ es))

module _ {K : Type 0} (same : K → K → Bool) where
  -- A key that is there already needs no room.
  pub length-assign :
      (k : K) (e : LimitEntry) (es : Table K) → length (assign same k e es) ≤ suc (length es)
  unfolding assign
  length-assign k e [] = omega arith
  length-assign k e ((j, f) ∷ es) = ground (arith, length-assign k e es)

  pub length-assign_known :
      (k : K) (e f : LimitEntry) (es : Table K)
      → lookup same k es ≡ some f
      → length (assign same k e es) ≡ length es
  unfolding assign lookup
  length-assign_known k e f [] h = absurd (cc)
  length-assign_known k e f ((j, g) ∷ es) h = elim (Bool-cases (same j k)) [
    | inl here ↦ rw (here, assign)
    | inr past ↦ rw (past, assign) (omega (arith, length-assign_known k e f es (ground arith)))
  ]

  abbrev counted : K → ℕ → ℕ → Table K → LimitEntry
  counted k now limit room = (count_failure (entry_or_zero (lookup same k room)) now limit).0

  length-record_in :
      (choice max : ℕ) (k : K) (now limit : ℕ) (es : Table K)
      → 1 ≤ max
      → length es ≤ max
      → length (record_in same choice max k now limit es).0 ≤ max
  unfolding record_in make_room
  length-record_in choice max k now limit es one h = from (lookup same k es) refl
    where
      from :
          (o : Option LimitEntry)
          → lookup same k es ≡ o
          → length (record_in same choice max k now limit es).0 ≤ max
      from (some f) e =
          rw (e, record_in, make_room)
            (omega (arith, length-assign_known k (counted k now limit es) f es e))
      from none e = elim (Bool-cases (leb max (length es))) [
        | inl full ↦
            rw (e, record_in, make_room, full)
              (omega (
                arith,
                length-assign k (counted k now limit (remove_one choice es)) (remove_one choice es),
                length-remove_one choice es,
              ))
        | inr fits ↦
            rw (e, record_in, make_room, fits)
              (ground (arith, length-assign k (counted k now limit es) es))
      ]

-- Both tables are within the limiter's capacity.
abbrev pub IsBounded : LoginLimiter → Type 0
IsBounded l =
    (length l.account_entries ≤ l.max_entries)
    × (length l.ip_entries ≤ l.max_entries)
    × (1 ≤ l.max_entries)

cleanup-IsBounded : (now : ℕ) (l : LoginLimiter) → IsBounded l → IsBounded (cleanup_if_due now l)
unfolding cleanup_if_due
cleanup-IsBounded now l (a, b, c) =
    elim (Bool-cases (not (l.last_cleanup == 0) && ltb (now - l.last_cleanup) 60000000000)) [
      | inl early ↦ rw (early, cleanup_if_due) (a, b, c)
      | inr due ↦
          rw (due, cleanup_if_due)
            (
              omega (
                arith,
                length-filter-le (λ (e : (Text × Text) × LimitEntry). not (is_stale now e.1))
                    l.account_entries,
              ),
              omega (
                arith,
                length-filter-le (λ (e : Text × LimitEntry). not (is_stale now e.1)) l.ip_entries,
              ),
              c,
            )
    ]

use-IsBounded : (c : Use) (l : LoginLimiter) → IsBounded l → IsBounded (use_limiter c l)
unfolding check record_failure clear delete
use-IsBounded (checks u ip now) l h = cleanup-IsBounded now l h
use-IsBounded (fails (a, b) u ip now) l h =
    let clean = cleanup_if_due now l in
    let (accounts, peers, one) = cleanup-IsBounded now l h in
    (
      length-record_in same_account a clean.max_entries (u, ip) now 8 clean.account_entries one
          accounts,
      length-record_in text_eq b clean.max_entries ip now 40 clean.ip_entries one peers,
      one,
    )
use-IsBounded (clears u ip) l (a, b, c) = (
  omega (
    arith,
    length-filter-le (λ (e : (Text × Text) × LimitEntry). not (same_account e.0 (u, ip)))
        l.account_entries,
  ),
  b,
  c,
)

-- Whatever calls follow, and whichever entries are evicted, neither table ever has more entries than
-- the limiter's capacity, if that holds at the start and the capacity is at least 1.
pub use_all-IsBounded : (cs : List Use) (l : LoginLimiter) → IsBounded l → IsBounded (use_all cs l)
use_all-IsBounded [] l h = h
use_all-IsBounded (c ∷ cs) l h = use_all-IsBounded cs (use_limiter c l) (use-IsBounded c l h)
