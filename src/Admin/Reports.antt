-- ===== src/Admin/Reports.antt =====
-- What a report of the venues' state changes (`report_venue_state` of
-- programs/poyz/src/instructions/admin.rs).
use plott.Common.{ℕ, ◌≤◌, ◌≡◌, ◌≢◌, refl, ◌⊎◌, inl, inr, min, true, ok, some, Option, none, arith}
use native.Mathlib.Decide.{ℕ_discrete}
use plott.Common.Int.{ℤ, pos, ◌≤ℤ◌, ◌<ℤ◌, unsigned_abs}
use plott.State.{Keeper, venue_enabled}
use plott.Runtime.{Runtime, Clock, Done}
use plott.Events.Admin.{VenueStateReported}
use plott.Admin.Accounts.{ReportVenueStateCtx, check_reporter}
use plott.Admin.{regime_clock, report_venue_state}

-- The clock of the regime runs from the first negative report on, and only while reports are negative.
pub regime_clock_lem :
    (net since now : ℤ)
    → ((pos 0 ≤ℤ net) × (regime_clock net since now ≡ pos 0))
      ⊎ ((net <ℤ pos 0)
          × (((since ≡ pos 0) × (regime_clock net since now ≡ now))
              ⊎ ((since ≢ pos 0) × (regime_clock net since now ≡ since))))
unfolding regime_clock
regime_clock_lem net since now = ground arith

module _ {T : Type 0} (rt : Runtime T) (tokens : T) (clock : Clock) (ctx : ReportVenueStateCtx)
    (venue_id : ℕ) (net : ℤ) (capacity : ℕ) (d : Done T (Unit {0}) VenueStateReported)
    (done : report_venue_state rt tokens clock ctx venue_id net capacity ≡ ok d) where
  report_facts :
      (venue_enabled ctx.config venue_id ≡ true)
      × (unsigned_abs net ≤ 1_000_000)
      × (ctx.config.venue_state_at ≤ℤ clock.unix_timestamp)
      × (d.config ≡ record ctx.config {
        last_venue_id = venue_id;
        last_net_carry_bps = net;
        venue_capacity_notional = min capacity ctx.config.max_reportable_capacity_notional;
        venue_state_at = clock.unix_timestamp;
        negative_funding_since =
            regime_clock net ctx.config.negative_funding_since clock.unix_timestamp;
      })
  unfolding report_venue_state
  report_facts = ground arith

  report_by : check_reporter ctx ≡ ok tt
  unfolding report_venue_state
  report_by = ground arith

  reporter_keeper :
      (o : Option Keeper)
      → ctx.keeper_account ≡ o
      → ctx.signer ≢ ctx.config.authority
      → check_reporter ctx ≡ ok tt
      → (k : Keeper) × (ctx.keeper_account ≡ some k)
        × (k.keeper ≡ ctx.signer)
        × (k.active ≡ true)
        × (ctx.config.min_keeper_bond ≤ k.bonded)
  unfolding check_reporter
  reporter_keeper none e other h = ground arith
  reporter_keeper (some k) e other h = (k, e, ground arith, ground arith, ground arith)

  reporter_known :
      (ctx.signer ≡ ctx.config.authority)
      ⊎ ((k : Keeper) × (ctx.keeper_account ≡ some k)
          × (k.keeper ≡ ctx.signer)
          × (k.active ≡ true)
          × (ctx.config.min_keeper_bond ≤ k.bonded))
  reporter_known = elim (ℕ_discrete ctx.signer ctx.config.authority) [
    | yes e ↦ inl e
    | no other ↦ inr (reporter_keeper ctx.keeper_account refl other report_by)
  ]

  -- A report is the authority's or an active, bonded keeper's own, on an enabled venue, never older than
  -- the one before. It records the carry and the capacity, the latter no higher than the cap, and of the
  -- config nothing beyond the report changes.
  pub report_venue_state_guarded :
      ((ctx.signer ≡ ctx.config.authority)
        ⊎ ((k : Keeper) × (ctx.keeper_account ≡ some k)
            × (k.keeper ≡ ctx.signer)
            × (k.active ≡ true)
            × (ctx.config.min_keeper_bond ≤ k.bonded)))
      × (venue_enabled ctx.config venue_id ≡ true)
      × (ctx.config.venue_state_at ≤ℤ d.config.venue_state_at)
      × (d.config.venue_capacity_notional ≤ ctx.config.max_reportable_capacity_notional)
      × (d.config.venue_capacity_notional ≤ capacity)
      × (d.config ≡ record ctx.config {
        last_venue_id = venue_id;
        last_net_carry_bps = net;
        venue_capacity_notional = d.config.venue_capacity_notional;
        venue_state_at = clock.unix_timestamp;
        negative_funding_since = d.config.negative_funding_since;
      })
  report_venue_state_guarded =
      let (venue, small, later, frame) = report_facts in
      let at : d.config.venue_state_at ≡ clock.unix_timestamp = cc in
      let capped : d.config.venue_capacity_notional
          ≡ min capacity ctx.config.max_reportable_capacity_notional =
        cc in
      (reporter_known, venue, rw at later, omega (arith, capped), omega (arith, capped), cc)

  -- The regime of negative funding starts with the first negative report, keeps its start through
  -- further negative reports, and ends with any other.
  pub report_venue_state-regime :
      ((pos 0 ≤ℤ net) × (d.config.negative_funding_since ≡ pos 0))
      ⊎ ((net <ℤ pos 0)
          × (((ctx.config.negative_funding_since ≡ pos 0)
                × (d.config.negative_funding_since ≡ clock.unix_timestamp))
              ⊎ ((ctx.config.negative_funding_since ≢ pos 0)
                  × (d.config.negative_funding_since ≡ ctx.config.negative_funding_since))))
  report_venue_state-regime =
      let (a, b, c, frame) = report_facts in
      let since : d.config.negative_funding_since
          ≡ regime_clock net ctx.config.negative_funding_since clock.unix_timestamp =
        cc in
      rw since (regime_clock_lem net ctx.config.negative_funding_since clock.unix_timestamp)
