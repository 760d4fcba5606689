-- ===== src/Leadership/Rows.antt =====
-- What each operation of the leadership service leaves in the lease row, over any table that obeys
-- the laws of SQL: backend/app/services/runtime_leadership_service.py.
use codex_trading_app.Prelude.{
  ℕ, ◌+◌, String, ◌≡◌, Bool, true, Option, none, some, ◌==◌, if◌then◌else◌, arith, Option-cases,
  inl, inr,
}
use mathlib.Core.Option
use codex_trading_app.Leadership.Lease.{RuntimeLease, LeaseTable, updated, matched}
use codex_trading_app.Leadership.Service.{
  RuntimeLeaseAcquisition, as_utc, lease_ttl, new_lease, takeable, taken, holds, renewable, renewed,
  released, take_existing_lease, acquire, renew, release,
}

-- The row after `acquire` at an instant, and whether the caller got the lease.
abbrev pub granted : String → ℕ → ℕ → Option RuntimeLease → Option RuntimeLease
granted owner now ttl none = some (new_lease owner now (now + ttl))
granted owner now ttl (some l) =
    some (if takeable owner now l then taken owner now (now + ttl) l else l)

abbrev pub grants : String → ℕ → Option RuntimeLease → Bool
grants owner now none = true
grants owner now (some l) = takeable owner now l

module _ (table : LeaseTable) where
  open table use {Db, get, insert, update, insert_lem, update_row, update_count}

  take_row :
      (owner : String) (now ttl : ℕ) (db : Db) (l : RuntimeLease)
      → get db ≡ some l
      → (get (take_existing_lease table owner now ttl db).1 ≡ granted owner now ttl (some l))
        × ((take_existing_lease table owner now ttl db).0.acquired ≡ takeable owner now l)
        × ((take_existing_lease table owner now ttl db).0.generation
            ≡ Option.map (λ m. m.generation) (granted owner now ttl (some l)))
  unfolding take_existing_lease
  take_row owner now ttl db l e =
      let values = taken owner now (now + ttl) in
      grind (
        arith,
        e,
        update_row (takeable owner now) values db,
        update_count (takeable owner now) values db,
      )

  -- What an acquisition leaves and reports, by the row that it finds.
  pub record Acquired (owner : String) (now ttl : ℕ) (before : Option RuntimeLease)
      (outcome : RuntimeLeaseAcquisition × Db) : Type 0 where
    pub row : get outcome.1 ≡ granted owner now ttl before
    pub answer : outcome.0.acquired ≡ grants owner now before
    pub generation :
        outcome.0.generation ≡ Option.map (λ m. m.generation) (granted owner now ttl before)

  acquire_fresh :
      (owner : String) (now ttl : Option ℕ) (clock : ℕ) (db : Db)
      → get db ≡ none
      → Acquired owner
          (as_utc now clock)
          (lease_ttl ttl)
          none
          (acquire table owner now ttl clock db)
  unfolding acquire
  acquire_fresh owner now ttl clock db e =
      let t = as_utc now clock in
      let r = new_lease owner t (t + lease_ttl ttl) in
      elim (Option-cases (insert r db)) [
        | inl refused ↦ absurd (grind (arith, e, refused, insert_lem r db))
        | inr (after, done) ↦ record {
          row = grind (arith, e, done, insert_lem r db);
          answer = grind (arith, done);
          generation = grind (arith, done);
        }
      ]

  acquire_existing :
      (owner : String) (now ttl : Option ℕ) (clock : ℕ) (db : Db) (l : RuntimeLease)
      → get db ≡ some l
      → Acquired owner
          (as_utc now clock)
          (lease_ttl ttl)
          (some l)
          (acquire table owner now ttl clock db)
  unfolding acquire
  acquire_existing owner now ttl clock db l e =
      let t = as_utc now clock in
      let r = new_lease owner t (t + lease_ttl ttl) in
      let held = take_row owner t (lease_ttl ttl) db l e in
      elim (Option-cases (insert r db)) [
        | inr (after, done) ↦ absurd (grind (arith, e, done, insert_lem r db))
        | inl refused ↦ record {
          row = rw (refused, acquire) held.0;
          answer = rw (refused, acquire) held.1;
          generation = rw (refused, acquire) held.2;
        }
      ]

  pub acquire_row :
      (owner : String) (now ttl : Option ℕ) (clock : ℕ) (db : Db)
      → Acquired owner
          (as_utc now clock)
          (lease_ttl ttl)
          (get db)
          (acquire table owner now ttl clock db)
  acquire_row owner now ttl clock db = elim (Option-cases (get db)) [
    | inl e ↦ rw e (acquire_fresh owner now ttl clock db e)
    | inr (l, e) ↦ rw e (acquire_existing owner now ttl clock db l e)
  ]

  pub renew_row :
      (owner : String) (generation : ℕ) (now ttl : Option ℕ) (clock : ℕ) (db : Db)
      → let t = as_utc now clock in
        let (answer, after) = renew table owner generation now ttl clock db in
        (get after
          ≡ updated (renewable owner generation t) (renewed t (t + lease_ttl ttl)) (get db))
        × (answer ≡ (matched (renewable owner generation t) (get db) == 1))
  unfolding renew
  renew_row owner generation now ttl clock db =
      let t = as_utc now clock in
      let values = renewed t (t + lease_ttl ttl) in
      let test = renewable owner generation t in
      (update_row test values db, rw (update_count test values db))

  pub release_row :
      (owner : String) (generation : ℕ) (now : Option ℕ) (clock : ℕ) (db : Db)
      → let t = as_utc now clock in
        let (answer, after) = release table owner generation now clock db in
        (get after ≡ updated (holds owner generation) (released t) (get db))
        × (answer ≡ (matched (holds owner generation) (get db) == 1))
  unfolding release
  release_row owner generation now clock db =
      let t = as_utc now clock in
      let test = holds owner generation in
      (update_row test (released t) db, rw (update_count test (released t) db))
