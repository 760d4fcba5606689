-- ===== src/Leadership/Traces.antt =====
-- Any sequence of calls by any processes on the lease row
-- (backend/app/services/runtime_leadership_service.py), each call one step.
use codex_trading_app.Prelude.{
  ℕ, ◌+◌, ◌≤◌, ◌<◌, String, ◌≡◌, refl, ◌≢◌, false, Option, some, List, [], ◌∷◌, All, arith, ok,
  raised, eq_iff, if◌then◌else◌,
}
use codex_trading_app.Leadership.Lease.{RuntimeLease, LeaseTable, updated}
use codex_trading_app.Leadership.Service.{
  as_utc, lease_ttl, takeable, taken, acquire, renew, release, renewable, renewed, holds, released,
}
use codex_trading_app.Leadership.Fence.{
  ActiveRuntimeLeadership, leadership_changed, is_lost, hold_fence,
}
use codex_trading_app.Leadership.Rows.{granted, acquire_row, renew_row, release_row}
use codex_trading_app.Leadership.Claims.{IsLive, live-untakeable}

-- A call of the service by some process, with the reading of its clock last.
pub data Call : Type 0 where
  acquiring : String → Option ℕ → Option ℕ → ℕ → Call
  renewing : String → ℕ → Option ℕ → Option ℕ → ℕ → Call
  releasing : String → ℕ → Option ℕ → ℕ → Call

abbrev pub caller : Call → String
caller (acquiring owner now ttl clock) = owner
caller (renewing owner generation now ttl clock) = owner
caller (releasing owner generation now clock) = owner

-- The instant at which the call acts.
abbrev pub instant : Call → ℕ
instant (acquiring owner now ttl clock) = as_utc now clock
instant (renewing owner generation now ttl clock) = as_utc now clock
instant (releasing owner generation now clock) = as_utc now clock

-- The row after a call.
row_after : Call → Option RuntimeLease → Option RuntimeLease
row_after (acquiring owner now ttl clock) row = granted owner (as_utc now clock) (lease_ttl ttl) row
row_after (renewing owner generation now ttl clock) row =
    updated (renewable owner generation (as_utc now clock))
      (renewed (as_utc now clock) (as_utc now clock + lease_ttl ttl)) row
row_after (releasing owner generation now clock) row =
    updated (holds owner generation) (released (as_utc now clock)) row

-- A row stays a row, and its generation does not fall.
row_after-some :
    (c : Call) (l : RuntimeLease)
    → (m : RuntimeLease) × (row_after c (some l) ≡ some m) × (l.generation ≤ m.generation)
unfolding row_after taken renewed released
row_after-some (acquiring owner now ttl clock) l = (
  if takeable owner (as_utc now clock) l
      then taken owner (as_utc now clock) (as_utc now clock + lease_ttl ttl) l
      else l,
  refl,
  ground arith,
)
row_after-some (renewing owner generation now ttl clock) l = (
  if renewable owner generation (as_utc now clock) l
      then renewed (as_utc now clock) (as_utc now clock + lease_ttl ttl) l
      else l,
  refl,
  ground arith,
)
row_after-some (releasing owner generation now clock) l =
    (if holds owner generation l then released (as_utc now clock) l else l, refl, ground arith)

-- Another process's call within the term of a lease leaves it alone.
row_after-live :
    (c : Call) (l : RuntimeLease)
    → l.owner_id ≢ caller c
    → IsLive (instant c) l
    → row_after c (some l) ≡ some l
unfolding row_after renewable holds
row_after-live (acquiring owner now ttl clock) l other live =
    rw (live-untakeable owner (as_utc now clock) l other live)
row_after-live (renewing owner generation now ttl clock) l other live =
    ground (arith, eq_iff l.owner_id owner)
row_after-live (releasing owner generation now clock) l other live =
    ground (arith, eq_iff l.owner_id owner)

-- The leadership of the process that holds a lease.
abbrev pub leadership_of : RuntimeLease → ActiveRuntimeLeadership
leadership_of l = record { owner_id = l.owner_id; generation = l.generation }

live-not_lost :
    (now : ℕ) (l : RuntimeLease) → IsLive now l → is_lost (leadership_of l) now (some l) ≡ false
unfolding is_lost
live-not_lost now l live = ground (arith, eq_iff l.owner_id l.owner_id)

module _ (table : LeaseTable) where
  open table use {Db, get}

  -- The table after a call, and after a sequence of calls.
  unfoldable pub perform : Call → Db → Db
  perform (acquiring owner now ttl clock) db = (acquire table owner now ttl clock db).1
  perform (renewing owner generation now ttl clock) db =
      (renew table owner generation now ttl clock db).1
  perform (releasing owner generation now clock) db =
      (release table owner generation now clock db).1

  unfoldable pub perform_all : List Call → Db → Db
  perform_all [] db = db
  perform_all (c ∷ cs) db = perform_all cs (perform c db)

  perform_row : (c : Call) (db : Db) → get (perform c db) ≡ row_after c (get db)
  unfolding perform row_after
  perform_row (acquiring owner now ttl clock) db =
      let done = acquire_row table owner now ttl clock db in done.row
  perform_row (renewing owner generation now ttl clock) db =
      (renew_row table owner generation now ttl clock db).0
  perform_row (releasing owner generation now clock) db =
      (release_row table owner generation now clock db).0

  generation-perform_all :
      (cs : List Call) (db : Db) (l : RuntimeLease)
      → get db ≡ some l
      → (m : RuntimeLease) × (get (perform_all cs db) ≡ some m) × (l.generation ≤ m.generation)
  unfolding perform_all
  generation-perform_all [] db l e = (l, e, omega arith)
  generation-perform_all (c ∷ cs) db l e =
      let (m, row, grows) = row_after-some c l in
      let (n, end, later) =
        generation-perform_all cs (perform c db) m (rw (perform_row c db, e) row) in
      (n, end, omega arith)

  -- Fencing: once the row has a generation above that of a process, then whatever calls follow,
  -- at whatever instants, the fence refuses that process every broker mutation and its renewals
  -- are answered with false.
  pub stale_fenced_forever :
      (active : ActiveRuntimeLeadership) (cs : List Call) (db : Db) (l : RuntimeLease)
      → get db ≡ some l
      → active.generation < l.generation
      → (clock : ℕ) (now ttl : Option ℕ)
      → (hold_fence table (some active) clock (perform_all cs db) ≡ raised leadership_changed)
        × ((renew table active.owner_id active.generation now ttl clock (perform_all cs db)).0
            ≡ false)
  unfolding hold_fence renewable holds
  stale_fenced_forever active cs db l e older clock now ttl =
      let (m, row, grows) = generation-perform_all cs db l e in
      let renewal =
        (renew_row table active.owner_id active.generation now ttl clock (perform_all cs db)).1 in
      (rw row (ground (arith, grows, older)), rw (renewal, row) (ground (arith, grows, older)))

  tenure_row :
      (cs : List Call) (db : Db) (l : RuntimeLease)
      → get db ≡ some l
      → All (λ c. (l.owner_id ≢ caller c) × IsLive (instant c) l) cs
      → get (perform_all cs db) ≡ some l
  unfolding perform_all
  tenure_row [] db l e others = e
  tenure_row (c ∷ cs) db l e others =
      tenure_row cs (perform c db) l
        (rw (perform_row c db, e) (row_after-live c l others.0.0 others.0.1)) others.1

  -- Exclusive tenure: any calls by other owners at instants at which a lease is in force leave its
  -- row as it was, and then the fence lets the holder through at every instant at which the lease
  -- is in force.
  pub tenure_protected :
      (cs : List Call) (db : Db) (l : RuntimeLease)
      → get db ≡ some l
      → All (λ c. (l.owner_id ≢ caller c) × IsLive (instant c) l) cs
      → (now : ℕ) → IsLive now l
      → (get (perform_all cs db) ≡ some l)
        × (hold_fence table (some (leadership_of l)) now (perform_all cs db) ≡ ok (leadership_of l))
  unfolding hold_fence
  tenure_protected cs db l e others now live =
      let row = tenure_row cs db l e others in (row, rw row (rw (live-not_lost now l live)))
