-- ===== src/Auth/Limiter/Room.antt =====
-- The accounts of the limiter: which entries a call leaves where they are, and how many there are.
use swa_drive.Base.{
  ℕ, suc, ◌+◌, ◌-◌, ◌≤◌, ◌<◌, ◌≡◌, refl, ap, ◌∙◌, true, false, not, ◌&&◌, some, List, [], ◌∷◌, ltb,
  leb, ◌==◌, length, arith, inl, inr, Bool-cases, Option-cases, length-filter-le,
}
use swa_drive.Base.Text.{Text, text_eq_iff}
use swa_drive.Auth.Limiter.{
  LimitEntry, Table, LoginLimiter, lookup, assign, delete, make_room, record_in, check, clear,
  record_failure, cleanup_if_due, is_stale, same_account, entry_or_zero, count_failure,
}
use swa_drive.Auth.Limiter.Capacity.{
  Use, checks, fails, clears, use_limiter, length-assign, length-assign_known, length-remove_one,
}

pub same_account-same : (a b : Text × Text) → same_account a b ≡ true → a ≡ b
same_account-same (u, x) (v, y) h =
    let first = (text_eq_iff u v).0 (ground arith) in
    let second = (text_eq_iff x y).0 (ground arith) in
    ap (λ z. (z, x)) first ∙ ap (λ z. (v, z)) second

same_account_trans :
    (a b c : Text × Text) → same_account a b ≡ true → same_account a c ≡ same_account b c
same_account_trans a b c h = ap (λ z. same_account z c) (same_account-same a b h)

abbrev Accounts : Type 0
Accounts = Table (Text × Text)

-- A table with room for a new key loses none.
pub lookup-assign_other :
    (j k : Text × Text) (f : LimitEntry) (es : Accounts)
    → same_account j k ≡ false
    → lookup same_account k (assign same_account j f es) ≡ lookup same_account k es
unfolding lookup assign
lookup-assign_other j k f [] h = rw h
lookup-assign_other j k f ((i, g) ∷ es) h = elim (Bool-cases (same_account i j)) [
  | inl here ↦
      (let other : same_account i k ≡ false = same_account_trans i j k here ∙ h in
        rw (here, assign, other))
  | inr past ↦ elim (Bool-cases (same_account i k)) [
    | inl found ↦ rw (past, assign, found)
    | inr far ↦ rw (past, assign, far) (lookup-assign_other j k f es h)
  ]
]

pub lookup-delete_other :
    (j k : Text × Text) (es : Accounts)
    → same_account j k ≡ false
    → lookup same_account k (delete same_account j es) ≡ lookup same_account k es
unfolding lookup delete
lookup-delete_other j k [] h = refl
lookup-delete_other j k ((i, g) ∷ es) h = elim (Bool-cases (same_account i j)) [
  | inl here ↦
      (let other : same_account i k ≡ false = same_account_trans i j k here ∙ h in
        rw (here, other, delete) (lookup-delete_other j k es h))
  | inr past ↦ elim (Bool-cases (same_account i k)) [
    | inl found ↦ rw (past, found)
    | inr far ↦ rw (past, far, delete) (lookup-delete_other j k es h)
  ]
]

make_room-roomy :
    (choice max : ℕ) (j : Text × Text) (es : Accounts)
    → length es < max
    → make_room same_account choice max j es ≡ es
unfolding make_room
make_room-roomy choice max j es h = elim (Option-cases (lookup same_account j es)) [
  | inl e ↦ (let fits : leb max (length es) ≡ false = ground arith in rw (e, make_room, fits))
  | inr (g, e) ↦ rw (e, make_room)
]

pub record_in-roomy :
    (choice max : ℕ) (j : Text × Text) (now limit : ℕ) (es : Accounts)
    → length es < max
    → (record_in same_account choice max j now limit es).0
      ≡ assign same_account j
          (count_failure (entry_or_zero (lookup same_account j es)) now limit).0
          es
unfolding record_in
record_in-roomy choice max j now limit es h = rw (make_room-roomy choice max j es h)

-- How many failures a sequence of calls records, each of which can need a new entry.
abbrev pub count_fails : List Use → ℕ
count_fails [] = 0
count_fails (checks u a t ∷ cs) = count_fails cs
count_fails (fails c u a t ∷ cs) = suc (count_fails cs)
count_fails (clears u a ∷ cs) = count_fails cs

pub record_in-known :
    (choice max : ℕ) (k : Text × Text) (now limit : ℕ) (f : LimitEntry) (es : Accounts)
    → lookup same_account k es ≡ some f
    → length (record_in same_account choice max k now limit es).0 ≡ length es
unfolding record_in make_room
record_in-known choice max k now limit f es e =
    rw (e, record_in, make_room)
      (length-assign_known same_account k
        (count_failure (entry_or_zero (lookup same_account k es)) now limit).0 f es e)

pub count_fails-cons :
    (c : Use) (cs : List Use) → count_fails (c ∷ cs) ≡ count_fails (c ∷ []) + count_fails cs
count_fails-cons (checks u a t) cs = omega arith
count_fails-cons (fails c u a t) cs = omega arith
count_fails-cons (clears u a) cs = omega arith

pub cleanup-length :
    (t : ℕ) (l : LoginLimiter)
    → (length (cleanup_if_due t l).account_entries ≤ length l.account_entries)
      × ((cleanup_if_due t l).max_entries ≡ l.max_entries)
unfolding cleanup_if_due
cleanup-length t l =
    elim (Bool-cases (not (l.last_cleanup == 0) && ltb (t - l.last_cleanup) 60000000000)) [
      | inl early ↦ rw (early, cleanup_if_due) (omega arith, refl)
      | inr due ↦
          rw (due, cleanup_if_due)
            (
              length-filter-le (λ (e : (Text × Text) × LimitEntry). not (is_stale t e.1))
                  l.account_entries,
              refl,
            )
    ]

make_room-length :
    (choice max : ℕ) (k : Text × Text) (es : Accounts)
    → length (make_room same_account choice max k es) ≤ length es
unfolding make_room
make_room-length choice max k es = elim (Option-cases (lookup same_account k es)) [
  | inr (g, e) ↦ rw (e, make_room) (omega arith)
  | inl e ↦ rw (e, make_room) (ground (arith, length-remove_one choice es))
]

-- Only a failure adds an entry, and one at most.
pub use-length :
    (c : Use) (l : LoginLimiter)
    → (length (use_limiter c l).account_entries ≤ length l.account_entries + count_fails (c ∷ []))
      × ((use_limiter c l).max_entries ≡ l.max_entries)
unfolding check record_failure record_in clear delete
use-length (checks u a t) l = let (fewer, same) = cleanup-length t l in (omega (arith, fewer), same)
use-length (fails (a, b) u peer t) l =
    let clean = cleanup_if_due t l in
    let (fewer, same) = cleanup-length t l in
    let room = make_room same_account a clean.max_entries (u, peer) clean.account_entries in
    (
      omega (
        arith,
        fewer,
        make_room-length a clean.max_entries (u, peer) clean.account_entries,
        length-assign same_account (u, peer)
            (count_failure (entry_or_zero (lookup same_account (u, peer) room)) t 8).0 room,
      ),
      same,
    )
use-length (clears u a) l = (
  omega (
    arith,
    length-filter-le (λ (e : (Text × Text) × LimitEntry). not (same_account e.0 (u, a)))
        l.account_entries,
  ),
  refl,
)
