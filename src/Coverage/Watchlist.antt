-- ===== src/Coverage/Watchlist.antt =====
-- The watchlist as the coverage allocator sees it: `promote_instrument` and `_upsert_entry` of
-- backend/app/services/watchlist_service.py, and the two tests of an entry of
-- backend/app/services/coverage_allocator_service.py.
use codex_trading_app.Prelude.{
  ℕ, ◌+◌, String, str_eq, Bool, true, false, not, ◌&&◌, ◌||◌, Option, none, some, List, [], ◌∷◌,
  ltb, leb, if◌then◌else◌,
}
use codex_trading_app.Allocation.Floats.{Floats, max}
use codex_trading_app.Coverage.Records.{WatchlistEntry, CoverageSettings}

-- `select(WatchlistEntry).where(instrument == ...)` and `first()`, in the order of the rows.
unfoldable pub find_entry :
    {F : Type 0} → String → List (WatchlistEntry F) → Option (WatchlistEntry F)
find_entry instrument [] = none
find_entry instrument (e ∷ es) =
    let rest = find_entry instrument es in if str_eq e.instrument instrument then some e else rest

-- The row that is found is written back; a new row is added.
unfoldable pub write_entry :
    {F : Type 0} → String → WatchlistEntry F → List (WatchlistEntry F) → List (WatchlistEntry F)
write_entry instrument new [] = new ∷ []
write_entry instrument new (e ∷ es) =
    let rest = write_entry instrument new es in
    if str_eq e.instrument instrument then new ∷ es else e ∷ rest

-- The reason of an entry is the one given.
abbrev pub has_reason : Option String → String → Bool
has_reason none given = false
has_reason (some reason) given = str_eq reason given

-- `promotion_expires_at is not None and promotion_expires_at < now`
abbrev pub ran_out : Option ℕ → ℕ → Bool
ran_out none now = false
ran_out (some instant) now = ltb instant now

-- `_is_already_streamed`, of an entry that is found.
unfoldable pub is_streamed : {F : Type 0} → ℕ → WatchlistEntry F → Bool
is_streamed now e =
    if not (str_eq e.tier "TIER1") || not (str_eq e.status "ACTIVE")
    then false
    else if e.pinned
    then true
    else if has_reason e.reason "promotion_accepted" && ran_out e.promotion_expires_at now
    then false
    else true

-- `_is_already_streamed`
unfoldable pub is_already_streamed : {F : Type 0} → ℕ → Option (WatchlistEntry F) → Bool
is_already_streamed now none = false
is_already_streamed now (some e) = is_streamed now e

-- `cooldown_until is None or cooldown_until <= now`
abbrev pub cooled : Option ℕ → ℕ → Bool
cooled none now = true
cooled (some instant) now = leb instant now

-- `_passes_cooldown`
unfoldable pub passes_cooldown : {F : Type 0} → ℕ → Option (WatchlistEntry F) → Bool
passes_cooldown now none = true
passes_cooldown now (some e) = cooled e.cooldown_until now

module _ (fl : Floats) (settings : CoverageSettings fl.F) where
  open fl use {F, literal, add, mul, round}

  -- `min_residency_until is None or min_residency_until < now`
  residency : Option ℕ → ℕ → Option ℕ
  residency none now = some (now + settings.min_tier1_residency)
  residency (some instant) now =
      if ltb instant now then some (now + settings.min_tier1_residency) else some instant

  -- `_upsert_entry` with the reason "promotion_accepted" and no pin, the new or changed row.
  upserted : ℕ → String → F → Option (WatchlistEntry F) → WatchlistEntry F
  unfolding residency max
  upserted now instrument priority none = record {
    instrument = instrument;
    tier = "TIER1";
    status = "ACTIVE";
    pinned = false;
    reason = some "promotion_accepted";
    priority_score = priority;
    requested_frequency = some settings.streaming_requested_frequency;
    min_residency_until = some (now + settings.min_tier1_residency);
    cooldown_until = none;
    promotion_expires_at = none;
    updated_at = now;
  }
  upserted now instrument priority (some e) = record {
    instrument = e.instrument;
    tier = "TIER1";
    status = "ACTIVE";
    pinned = false;
    reason = some "promotion_accepted";
    priority_score = max fl e.priority_score priority;
    requested_frequency = some settings.streaming_requested_frequency;
    min_residency_until = residency e.min_residency_until now;
    cooldown_until = none;
    promotion_expires_at = e.promotion_expires_at;
    updated_at = now;
  }

  -- The row that a promotion leaves.
  unfoldable pub promoted :
      String → ℕ → ℕ → F → String → Option (WatchlistEntry F) → WatchlistEntry F
  unfolding upserted max
  promoted instrument promoted_at expires_at score frequency found =
      let priority =
        max fl (add (literal "75.0") (literal "5.0")) (round (mul score (literal "100")) 2) in
      record (upserted promoted_at instrument priority found) {
        promotion_expires_at = some expires_at;
        requested_frequency = some frequency;
        updated_at = promoted_at;
      }

  -- `promote_instrument`
  unfoldable pub promote_instrument :
      String → ℕ → ℕ → F → String → List (WatchlistEntry F) → List (WatchlistEntry F)
  promote_instrument instrument promoted_at expires_at score frequency entries =
      write_entry instrument
        (promoted instrument promoted_at expires_at score frequency (find_entry instrument entries))
        entries
