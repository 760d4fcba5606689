-- ===== src/Coverage/Once.antt =====
-- How often a run of backend/app/services/coverage_allocator_service.py promotes one instrument.
use codex_trading_app.Prelude.{
  ℕ, ◌+◌, ◌≤◌, String, str_eq, eq_iff, ◌≡◌, refl, Bool, true, false, Option, none, some, List, [],
  ◌∷◌, count, count-append, filter, arith, Bool-cases, Option-cases, inl, inr, ltb, if◌then◌else◌,
}
use codex_trading_app.Prelude.Sort.{sorted}
use codex_trading_app.Allocation.Floats.{Floats}
use codex_trading_app.Coverage.Records.{
  PromotionRequest, WatchlistEntry, CoverageSettings, CoverageEvent, promotion_accepted,
  promotion_rejected,
}
use codex_trading_app.Coverage.Watchlist.{
  find_entry, write_entry, ran_out, is_streamed, is_already_streamed, promoted, promote_instrument,
}
use codex_trading_app.Coverage.Allocator.{
  CoverageRun, CoverageTables, is_pending, text_or, instant_or, sorts_before, reject_request,
  expire_request, skip_request, accept_request, decide_request, decide_requests, started,
  allocate_pending_promotions,
}

module _ {F : Type 0} where
  find_entry-write_entry :
      (i : String) (new : WatchlistEntry F) (es : List (WatchlistEntry F))
      → new.instrument ≡ i
      → find_entry i (write_entry i new es) ≡ some new
  unfolding find_entry write_entry
  find_entry-write_entry i new [] h = ground (arith, h, eq_iff new.instrument i)
  find_entry-write_entry i new (e ∷ es) h =
      ground (arith, h, eq_iff new.instrument i, find_entry-write_entry i new es h)

  find_entry-write_entry_ne :
      (i j : String) (new : WatchlistEntry F) (es : List (WatchlistEntry F))
      → new.instrument ≡ j
      → str_eq i j ≡ false
      → find_entry i (write_entry j new es) ≡ find_entry i es
  unfolding find_entry write_entry
  find_entry-write_entry_ne i j new [] h ne =
      ground (arith, h, ne, eq_iff new.instrument i, eq_iff i j)
  find_entry-write_entry_ne i j new (e ∷ es) h ne = ground (
    arith,
    h,
    ne,
    eq_iff new.instrument i,
    eq_iff i j,
    eq_iff e.instrument i,
    eq_iff e.instrument j,
    find_entry-write_entry_ne i j new es h ne,
  )

  instrument-find_entry :
      (i : String) (es : List (WatchlistEntry F)) (e : WatchlistEntry F)
      → find_entry i es ≡ some e
      → e.instrument ≡ i
  unfolding find_entry
  instrument-find_entry i [] e h = ground (arith, h)
  instrument-find_entry i (x ∷ xs) e h =
      ground (arith, h, eq_iff x.instrument i, instrument-find_entry i xs e)

module _ (fl : Floats) (settings : CoverageSettings fl.F) where
  open fl use {F}

  -- An acceptance of an instrument.
  abbrev pub promotes : String → CoverageEvent F → Bool
  promotes i (promotion_accepted r) = str_eq r.instrument i
  promotes i (promotion_rejected r code) = false

  -- The watchlist streams an instrument.
  abbrev pub streams : String → ℕ → List (WatchlistEntry F) → Bool
  streams i now entries = is_already_streamed now (find_entry i entries)

  -- What a promotion of the instrument makes of its row.
  promoted-streams :
      (i : String) (now expires : ℕ) (score : F) (frequency : String)
      (found : Option (WatchlistEntry F))
      → ltb expires now ≡ false
      → is_streamed now (promoted fl settings i now expires score frequency found) ≡ true
  unfolding promoted is_streamed
  promoted-streams i now expires score frequency none h = ground (arith, h)
  promoted-streams i now expires score frequency (some e) h = ground (arith, h)

  instrument-promoted :
      (i : String) (at expires : ℕ) (score : F) (frequency : String) (es : List (WatchlistEntry F))
      → (promoted fl settings i at expires score frequency (find_entry i es)).instrument ≡ i
  unfolding promoted
  instrument-promoted i at expires score frequency es = elim (Option-cases (find_entry i es)) [
    | inl e ↦ rw e refl
    | inr (x, e) ↦ rw e (instrument-find_entry i es x e)
  ]

  streams-promote_instrument :
      (i : String) (now expires : ℕ) (score : F) (frequency : String) (es : List (WatchlistEntry F))
      → ltb expires now ≡ false
      → streams i now (promote_instrument fl settings i now expires score frequency es) ≡ true
  unfolding promote_instrument is_already_streamed
  streams-promote_instrument i now expires score frequency es h =
      let row = promoted fl settings i now expires score frequency (find_entry i es) in
      rw (find_entry-write_entry i row es (instrument-promoted i now expires score frequency es))
        (promoted-streams i now expires score frequency (find_entry i es) h)

  streams-promote_instrument_ne :
      (i j : String) (now at expires : ℕ) (score : F) (frequency : String)
      (es : List (WatchlistEntry F))
      → str_eq i j ≡ false
      → streams i now (promote_instrument fl settings j at expires score frequency es)
        ≡ streams i now es
  unfolding promote_instrument
  streams-promote_instrument_ne i j now at expires score frequency es ne =
      let row = promoted fl settings j at expires score frequency (find_entry j es) in
      cc (
        find_entry-write_entry_ne i j row es (instrument-promoted j at expires score frequency es)
          ne)

  -- The promotions of an instrument so far, and the one that may still come.
  abbrev chances : String → ℕ → CoverageRun F → ℕ
  chances i now run = count (promotes i) run.events + (if streams i now run.watchlist then 0 else 1)

  expiry_ahead :
      (now : ℕ) (expires : Option ℕ)
      → ran_out expires now ≡ false
      → ltb (instant_or expires (now + settings.promotion_ttl)) now ≡ false
  expiry_ahead now none h = ground arith
  expiry_ahead now (some t) h = h

  accept_request-chances :
      (i : String) (now : ℕ) (r : PromotionRequest F) (run : CoverageRun F)
      → ran_out r.expires_at now ≡ false
      → streams r.instrument now run.watchlist ≡ false
      → chances i now (accept_request fl settings now r run) ≤ chances i now run
  unfolding accept_request
  accept_request-chances i now r run h fresh =
      let expires = instant_or r.expires_at (now + settings.promotion_ttl) in
      let frequency = text_or r.requested_frequency settings.streaming_requested_frequency in
      let more = count-append (promotes i) run.events (promotion_accepted r ∷ []) in
      elim (Bool-cases (str_eq i r.instrument)) [
        | inl same ↦ ground (
          arith,
          more,
          fresh,
          eq_iff i r.instrument,
          same,
          streams-promote_instrument r.instrument now expires r.score frequency run.watchlist
              (expiry_ahead now r.expires_at h),
        )
        | inr other ↦ ground (
          arith,
          more,
          eq_iff i r.instrument,
          eq_iff r.instrument i,
          other,
          streams-promote_instrument_ne i r.instrument now now expires r.score frequency
              run.watchlist other,
        )
      ]

  reject_request-chances :
      (i code : String) (now : ℕ) (r : PromotionRequest F) (run : CoverageRun F)
      → chances i now (reject_request fl settings now code r run) ≡ chances i now run
  unfolding reject_request
  reject_request-chances i code now r run =
      ground (arith, count-append (promotes i) run.events (promotion_rejected r code ∷ []))

  decide_request-chances :
      (i : String) (now : ℕ) (r : PromotionRequest F) (run : CoverageRun F)
      → chances i now (decide_request fl settings now r run) ≤ chances i now run
  unfolding decide_request expire_request skip_request
  decide_request-chances i now r run = ground (
    arith,
    reject_request-chances i "score_below_threshold" now r run,
    reject_request-chances i "instrument_cooldown_active" now r run,
    reject_request-chances i "promotion_budget_exhausted" now r run,
    accept_request-chances i now r run,
  )

  decide_requests-chances :
      (i : String) (now : ℕ) (rs : List (PromotionRequest F)) (run : CoverageRun F)
      → chances i now (decide_requests fl settings now rs run) ≤ chances i now run
  unfolding decide_requests
  decide_requests-chances i now [] run = omega arith
  decide_requests-chances i now (r ∷ rs) run = omega (
    arith,
    decide_request-chances i now r run,
    decide_requests-chances i now rs (decide_request fl settings now r run),
  )

  -- A run promotes an instrument at most once, however many requests there are for it, and not at
  -- all where the watchlist streams it already.
  pub promoted_once :
      (instrument : String) (now : ℕ) (tables : CoverageTables F)
      → count (promotes instrument) (allocate_pending_promotions fl settings now tables).events
        ≤ (if streams instrument now tables.watchlist then 0 else 1)
  unfolding allocate_pending_promotions started
  promoted_once i now tables =
      let queue =
        sorted (sorts_before fl settings) (filter (λ r. is_pending r.status) tables.requests) in
      omega (arith, decide_requests-chances i now queue (started fl settings now tables))
