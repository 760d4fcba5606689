-- ===== src/Leadership/Fence.antt =====
-- The process's own record of its leadership, and the fence before a broker mutation:
-- `activate_runtime_leadership`, `deactivate_runtime_leadership` and
-- `hold_active_runtime_leadership_fence` of backend/app/services/runtime_leadership_service.py.
use codex_trading_app.Prelude.{
  ℕ, String, str_eq, Bool, true, false, not, ◌||◌, Option, none, some, leb, ◌==◌, if◌then◌else◌,
  Attempt, ok, raised,
}
use codex_trading_app.Leadership.Lease.{RuntimeLease, LeaseTable}
use codex_trading_app.Leadership.Service.{is_none}

-- `ActiveRuntimeLeadership`
pub record ActiveRuntimeLeadership : Type 0 where
  pub owner_id : String
  pub generation : ℕ

-- The two messages of `RuntimeLeadershipFenceError`.
pub data FenceError : Type 0 where
  not_active leadership_changed : FenceError

-- The global `_ACTIVE_RUNTIME_LEADERSHIP`, before and after the call.
unfoldable pub activate_runtime_leadership :
    String → ℕ → Option ActiveRuntimeLeadership → Option ActiveRuntimeLeadership
activate_runtime_leadership owner generation active =
    some (record { owner_id = owner; generation = generation })

-- `generation is not None and active.generation != generation`
other_generation : Option ℕ → ActiveRuntimeLeadership → Bool
other_generation none active = false
other_generation (some g) active = not (active.generation == g)

unfoldable pub deactivate_runtime_leadership :
    String → Option ℕ → Option ActiveRuntimeLeadership → Option ActiveRuntimeLeadership
unfolding other_generation
deactivate_runtime_leadership owner generation none = none
deactivate_runtime_leadership owner generation (some active) =
    if not (str_eq active.owner_id owner)
    then some active
    else if other_generation generation active
    then some active
    else none

-- The test on the locked row: absent, of another owner or generation, released, or expired.
unfoldable pub is_lost : ActiveRuntimeLeadership → ℕ → Option RuntimeLease → Bool
is_lost active now none = true
is_lost active now (some l) =
    not (str_eq l.owner_id active.owner_id)
    || (not (l.generation == active.generation)
        || (not (is_none l.released_at) || leb l.expires_at now))

module _ (table : LeaseTable) where
  open table use {Db, get}

  -- The fence up to its `yield`: the leadership under which the mutation may run.
  unfoldable pub hold_fence :
      Option ActiveRuntimeLeadership → ℕ → Db → Attempt FenceError ActiveRuntimeLeadership
  unfolding is_lost
  hold_fence none now db = raised not_active
  hold_fence (some active) now db =
      if is_lost active now (get db) then raised leadership_changed else ok active
