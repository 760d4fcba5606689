-- ===== src/Leadership/Service.antt =====
-- `RuntimeLeadershipService` of backend/app/services/runtime_leadership_service.py.
use codex_trading_app.Prelude.{
  ℕ, zero, suc, ◌+◌, String, str_eq, Bool, true, false, not, ◌&&◌, ◌||◌, Option, none, some, ltb,
  leb, ◌==◌, if◌then◌else◌,
}
use mathlib.Core.Option
use codex_trading_app.Leadership.Lease.{RuntimeLease, LeaseTable}

-- `RuntimeLeaseAcquisition`
pub record RuntimeLeaseAcquisition : Type 0 where
  pub acquired : Bool
  pub owner_id : String
  pub current_owner_id : Option String
  pub generation : Option ℕ
  pub expires_at : Option ℕ

-- `DEFAULT_TTL`: fifteen seconds.
abbrev pub default_ttl : ℕ
default_ttl = 15000000

-- `_as_utc(now)`: the instant given, or that of the clock.
abbrev pub as_utc : Option ℕ → ℕ → ℕ
as_utc none clock = clock
as_utc (some t) clock = t

-- `ttl or self.DEFAULT_TTL`: a duration of zero is false too.
abbrev pub lease_ttl : Option ℕ → ℕ
lease_ttl none = default_ttl
lease_ttl (some zero) = default_ttl
lease_ttl (some (suc t)) = suc t

abbrev pub is_none {ℓ} : {A : Type ℓ} → Option A → Bool
is_none none = true
is_none (some _) = false

-- The row that `acquire` adds.
unfoldable pub new_lease : String → ℕ → ℕ → RuntimeLease
new_lease owner timestamp expires = record {
  owner_id = owner;
  generation = 1;
  acquired_at = timestamp;
  heartbeat_at = timestamp;
  expires_at = expires;
  released_at = none;
}

-- The WHERE clause and the VALUES of `_take_existing_lease`.
unfoldable pub takeable : String → ℕ → RuntimeLease → Bool
takeable owner now l =
    str_eq l.owner_id owner || (not (is_none l.released_at) || leb l.expires_at now)

unfoldable pub taken : String → ℕ → ℕ → RuntimeLease → RuntimeLease
taken owner now expires l = record {
  owner_id = owner;
  generation = l.generation + 1;
  acquired_at = now;
  heartbeat_at = now;
  expires_at = expires;
  released_at = none;
}

-- The WHERE clauses of `renew` and `release`, and their VALUES.
unfoldable pub holds : String → ℕ → RuntimeLease → Bool
holds owner generation l =
    str_eq l.owner_id owner && (l.generation == generation && is_none l.released_at)

unfoldable pub renewable : String → ℕ → ℕ → RuntimeLease → Bool
unfolding holds
renewable owner generation timestamp l = holds owner generation l && ltb timestamp l.expires_at

unfoldable pub renewed : ℕ → ℕ → RuntimeLease → RuntimeLease
renewed timestamp expires l = record l { heartbeat_at = timestamp; expires_at = expires }

unfoldable pub released : ℕ → RuntimeLease → RuntimeLease
released timestamp l = record l { released_at = some timestamp; expires_at = timestamp }

-- What the row read back says, `if lease is not None else None`.
report : Bool → String → Option ℕ → Option RuntimeLease → RuntimeLeaseAcquisition
report acquired owner expires lease = record {
  acquired = acquired;
  owner_id = owner;
  current_owner_id = if acquired then some owner else Option.map (λ l. l.owner_id) lease;
  generation = Option.map (λ l. l.generation) lease;
  expires_at = if acquired then expires else Option.map (λ l. l.expires_at) lease;
}

module _ (table : LeaseTable) where
  open table use {Db, get, insert, update}

  -- `_take_existing_lease`: commit where one row changed, roll back otherwise.
  unfoldable pub take_existing_lease : String → ℕ → ℕ → Db → RuntimeLeaseAcquisition × Db
  unfolding takeable taken report
  take_existing_lease owner now ttl db =
      let (after, rowcount) = update (takeable owner now) (taken owner now (now + ttl)) db in
      if rowcount == 1
      then (report true owner (some (now + ttl)) (get after), after)
      else (report false owner none (get db), db)

  unfoldable pub acquire : String → Option ℕ → Option ℕ → ℕ → Db → RuntimeLeaseAcquisition × Db
  unfolding new_lease take_existing_lease
  acquire owner now ttl clock db =
      let timestamp = as_utc now clock in
      let expires = timestamp + lease_ttl ttl in
      elim (insert (new_lease owner timestamp expires) db) [
        | some after ↦ (
          record {
            acquired = true;
            owner_id = owner;
            current_owner_id = some owner;
            generation = some 1;
            expires_at = some expires;
          },
          after,
        )
        | none ↦ take_existing_lease owner timestamp (lease_ttl ttl) db
      ]

  unfoldable pub renew : String → ℕ → Option ℕ → Option ℕ → ℕ → Db → Bool × Db
  unfolding renewable renewed
  renew owner generation now ttl clock db =
      let timestamp = as_utc now clock in
      let (after, rowcount) =
        update (renewable owner generation timestamp)
          (renewed timestamp (timestamp + lease_ttl ttl)) db in
      (rowcount == 1, after)

  unfoldable pub release : String → ℕ → Option ℕ → ℕ → Db → Bool × Db
  unfolding holds released
  release owner generation now clock db =
      let timestamp = as_utc now clock in
      let (after, rowcount) = update (holds owner generation) (released timestamp) db in
      (rowcount == 1, after)
