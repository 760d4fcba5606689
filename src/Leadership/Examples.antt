-- ===== src/Leadership/Examples.antt =====
-- A table in memory, runs of two processes over it, and the theorems about the lease at concrete
-- inputs (backend/app/services/runtime_leadership_service.py).
use codex_trading_app.Prelude.{
  ℕ, ◌<◌, String, ◌≡◌, refl, ◌≢◌, true, false, Option, none, some, List, [], ◌∷◌, arith, ok, raised,
  eq_iff,
}
use mathlib.Core.Option
use codex_trading_app.Leadership.Lease.{RuntimeLease, LeaseTable, inserted, updated, matched}
use codex_trading_app.Leadership.Service.{acquire, renew}
use codex_trading_app.Leadership.Fence.{ActiveRuntimeLeadership, leadership_changed, hold_fence}
use codex_trading_app.Leadership.Claims.{
  IsLive, IsGranted, acquire_excluded, acquire_fences, fence_exclusive,
}
use codex_trading_app.Leadership.Traces.{
  Call, acquiring, renewing, releasing, perform_all, leadership_of, stale_fenced_forever,
  tenure_protected,
}

inserted_row :
    (r : RuntimeLease) (db : Option RuntimeLease)
    → Option.map (λ (o : Option RuntimeLease). o) (inserted r db) ≡ inserted r db
inserted_row r none = refl
inserted_row r (some l) = refl

-- The laws of `LeaseTable` can be met: the table is the row itself.
abbrev memory : LeaseTable
memory = record {
  Db = Option RuntimeLease;
  get = λ db. db;
  insert = inserted;
  update = λ where_clause values db. (updated where_clause values db, matched where_clause db);
  insert_lem = inserted_row;
  update_row = λ where_clause values db. refl;
  update_count = λ where_clause values db. refl;
}

-- A lease of process "a" that ends at 100.
abbrev held : RuntimeLease
held = record {
  owner_id = "a";
  generation = 4;
  acquired_at = 10;
  heartbeat_at = 40;
  expires_at = 100;
  released_at = none;
}

a-ne-b : ◌≢◌ {A = String} "a" "b"
a-ne-b e = grind (arith, e, eq_iff "a" "b")

held-IsLive : (now : ℕ) → now < 100 → IsLive now held
held-IsLive now h = record { unreleased = refl; unexpired = h }

takeover : (acquire memory "b" (some 100) (some 20) 0 (some held)).0.generation ≡ some 5
unfolding acquire
takeover = refl

acquire_excluded_example :
    let (answer, after) = acquire memory "b" (some 50) none 0 (some held) in
    (answer.acquired ≡ false) × (answer.generation ≡ some 4) × (after ≡ some held)
acquire_excluded_example =
    acquire_excluded memory "b" (some 50) none 0 (some held) held refl a-ne-b
      (held-IsLive 50 (omega arith))

acquired_takeover : (acquire memory "b" (some 100) (some 20) 0 (some held)).0.acquired ≡ true
unfolding acquire
acquired_takeover = refl

acquire_fences_example :
    let (answer, after) = acquire memory "b" (some 100) (some 20) 0 (some held) in
    (l : RuntimeLease) × (after ≡ some l)
    × IsGranted "b" 100 20 (some held) l
    × (answer.generation ≡ some l.generation)
acquire_fences_example =
    acquire_fences memory "b" (some 100) (some 20) 0 (some held) acquired_takeover

holder_passes :
    hold_fence memory (some (leadership_of held)) 50 (some held) ≡ ok (leadership_of held)
unfolding hold_fence
holder_passes = refl

fence_exclusive_example : (held.owner_id ≡ held.owner_id) × (held.generation ≡ held.generation)
fence_exclusive_example =
    fence_exclusive memory (leadership_of held) (leadership_of held) 50 50 (some held) holder_passes
      holder_passes

abbrev stale : ActiveRuntimeLeadership
stale = record { owner_id = "a"; generation = 3 }

abbrev later_calls : List Call
later_calls =
    renewing "a" 4 (some 90) none 0 ∷ releasing "a" 4 (some 95) 0 ∷ acquiring "a" none none 96 ∷ []

stale_fenced_forever_example :
    (hold_fence memory (some stale) 97 (perform_all memory later_calls (some held))
      ≡ raised leadership_changed)
    × ((renew memory "a" 3 none none 97 (perform_all memory later_calls (some held))).0 ≡ false)
stale_fenced_forever_example =
    stale_fenced_forever memory stale later_calls (some held) held refl (omega arith) 97 none none

abbrev rivals : List Call
rivals =
    acquiring "b" (some 60) none 0
    ∷ renewing "b" 4 (some 70) none 0
    ∷ releasing "b" 4 (some 80) 0
    ∷ []

tenure_protected_example :
    (perform_all memory rivals (some held) ≡ some held)
    × (hold_fence memory (some (leadership_of held)) 99 (perform_all memory rivals (some held))
        ≡ ok (leadership_of held))
tenure_protected_example =
    tenure_protected memory rivals (some held) held refl
      (
        (a-ne-b, held-IsLive 60 (omega arith)),
        ((a-ne-b, held-IsLive 70 (omega arith)), ((a-ne-b, held-IsLive 80 (omega arith)), tt)),
      )
      99 (held-IsLive 99 (omega arith))
