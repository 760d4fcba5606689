-- ===== src/Leadership/Lease.antt =====
-- The row of `RuntimeLease` (backend/app/models/runtime_leadership.py), and the table that holds
-- it, as what the service uses of its database session. `lease_name` is the primary key and the
-- service writes one name, so the table holds at most one row for it. Instants are microseconds
-- in UTC.
use codex_trading_app.Prelude.{ℕ, String, ◌≡◌, Bool, Option, none, some, if◌then◌else◌}
use mathlib.Core.Option

pub record RuntimeLease : Type 0 where
  pub owner_id : String
  pub generation : ℕ
  pub acquired_at : ℕ
  pub heartbeat_at : ℕ
  pub expires_at : ℕ
  pub released_at : Option ℕ

-- What an INSERT of a row with this primary key leaves, or `none` where the key is taken.
abbrev pub inserted : RuntimeLease → Option RuntimeLease → Option (Option RuntimeLease)
inserted r none = some (some r)
inserted r (some _) = none

-- What an UPDATE with a WHERE clause and VALUES leaves, and how many rows it changes.
abbrev pub updated :
    (RuntimeLease → Bool)
    → (RuntimeLease → RuntimeLease)
    → Option RuntimeLease
    → Option RuntimeLease
updated where_clause values none = none
updated where_clause values (some l) = some (if where_clause l then values l else l)

abbrev pub matched : (RuntimeLease → Bool) → Option RuntimeLease → ℕ
matched where_clause none = 0
matched where_clause (some l) = if where_clause l then 1 else 0

-- The database table as the service sees it through its session, with the laws of SQL that it
-- relies on. `update` is the state after the statement, before the commit or the rollback.
pub record LeaseTable : Type 1 where
  pub Db : Type 0
  pub get : Db → Option RuntimeLease
  pub insert : RuntimeLease → Db → Option Db
  pub update : (RuntimeLease → Bool) → (RuntimeLease → RuntimeLease) → Db → Db × ℕ
  pub insert_lem : (r : RuntimeLease) (db : Db) → Option.map get (insert r db) ≡ inserted r (get db)
  pub update_row :
      (where_clause : RuntimeLease → Bool) (values : RuntimeLease → RuntimeLease) (db : Db)
      → get (update where_clause values db).0 ≡ updated where_clause values (get db)
  pub update_count :
      (where_clause : RuntimeLease → Bool) (values : RuntimeLease → RuntimeLease) (db : Db)
      → (update where_clause values db).1 ≡ matched where_clause (get db)
