-- ===== src/Leadership/Claims.antt =====
-- One call at a time: who gets the lease, and whom the fence lets through
-- (backend/app/services/runtime_leadership_service.py).
use codex_trading_app.Prelude.{
  ℕ, ◌+◌, ◌<◌, String, ◌≡◌, refl, ◌≢◌, true, false, Option, none, some, arith, Option-cases, inl,
  inr, ok, eq_iff,
}
use codex_trading_app.Leadership.Lease.{RuntimeLease, LeaseTable}
use codex_trading_app.Leadership.Service.{as_utc, lease_ttl, takeable, acquire, new_lease, taken}
use codex_trading_app.Leadership.Fence.{ActiveRuntimeLeadership, hold_fence}
use codex_trading_app.Leadership.Rows.{granted, grants, acquire_row}

-- The lease is in force at an instant.
pub record IsLive (now : ℕ) (l : RuntimeLease) : Type 0 where
  pub unreleased : l.released_at ≡ none
  pub unexpired : now < l.expires_at

pub live-untakeable :
    (owner : String) (now : ℕ) (l : RuntimeLease)
    → l.owner_id ≢ owner
    → IsLive now l
    → takeable owner now l ≡ false
unfolding takeable
live-untakeable owner now l other live = ground (arith, eq_iff l.owner_id owner)

-- The generation of the row, 0 before the first acquisition.
abbrev pub generation_of : Option RuntimeLease → ℕ
generation_of none = 0
generation_of (some l) = l.generation

-- A lease that was granted just now over what stood before.
pub record IsGranted (owner : String) (now ttl : ℕ) (before : Option RuntimeLease)
    (l : RuntimeLease) : Type 0 where
  pub owned : l.owner_id ≡ owner
  pub unreleased : l.released_at ≡ none
  pub expiry : l.expires_at ≡ now + ttl
  pub later : l.generation ≡ generation_of before + 1

grants-IsGranted :
    (owner : String) (now ttl : ℕ) (before : Option RuntimeLease)
    → grants owner now before ≡ true
    → (l : RuntimeLease) × (granted owner now ttl before ≡ some l)
      × IsGranted owner now ttl before l
unfolding new_lease taken
grants-IsGranted owner now ttl none h = (
  new_lease owner now (now + ttl),
  refl,
  record { owned = refl; unreleased = refl; expiry = refl; later = refl },
)
grants-IsGranted owner now ttl (some l) h = (
  taken owner now (now + ttl) l,
  rw h,
  record { owned = refl; unreleased = refl; expiry = refl; later = refl },
)

module _ (table : LeaseTable) where
  open table use {Db, get}

  -- While another owner's lease is in force, `acquire` is refused: it reports that owner's
  -- generation and the row keeps every field.
  pub acquire_excluded :
      (owner : String) (now ttl : Option ℕ) (clock : ℕ) (db : Db) (l : RuntimeLease)
      → get db ≡ some l
      → l.owner_id ≢ owner
      → IsLive (as_utc now clock) l
      → let (answer, after) = acquire table owner now ttl clock db in
        (answer.acquired ≡ false) × (answer.generation ≡ some l.generation) × (get after ≡ some l)
  acquire_excluded owner now ttl clock db l e other live =
      let done = acquire_row table owner now ttl clock db in
      let closed = live-untakeable owner (as_utc now clock) l other live in
      (
        rw (done.answer, e) closed,
        rw (done.generation, e, closed) refl,
        rw (done.row, e, closed) refl,
      )

  -- An acquisition that succeeds leaves a row of the caller's, unreleased, that expires one time
  -- to live after the instant, under a generation one above the one before (1 at first), and the
  -- caller is told that generation.
  pub acquire_fences :
      (owner : String) (now ttl : Option ℕ) (clock : ℕ) (db : Db)
      → let (answer, after) = acquire table owner now ttl clock db in
        answer.acquired ≡ true
        → (l : RuntimeLease) × (get after ≡ some l)
          × IsGranted owner (as_utc now clock) (lease_ttl ttl) (get db) l
          × (answer.generation ≡ some l.generation)
  acquire_fences owner now ttl clock db h =
      let done = acquire_row table owner now ttl clock db in
      let (l, row, fresh) =
        grants-IsGranted owner (as_utc now clock) (lease_ttl ttl) (get db) (rw done.answer at h) in
      (l, rw done.row row, fresh, rw (done.generation, row) refl)

  -- Two processes whom the fence lets through at one state of the table, at whatever instants, act
  -- for the same owner under the same generation.
  pub fence_exclusive :
      (a b : ActiveRuntimeLeadership) (now later : ℕ) (db : Db)
      → hold_fence table (some a) now db ≡ ok a
      → hold_fence table (some b) later db ≡ ok b
      → (a.owner_id ≡ b.owner_id) × (a.generation ≡ b.generation)
  unfolding hold_fence
  fence_exclusive a b now later db h k = elim (Option-cases (get db)) [
    | inl e ↦ absurd (ground (arith, e, h))
    | inr (l, e) ↦
        ground (arith, e, h, k, eq_iff l.owner_id a.owner_id, eq_iff l.owner_id b.owner_id)
  ]
