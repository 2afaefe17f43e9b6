-- ===== src/Tests/Bookings.antt =====
-- A booking on concrete tables, with the station free and with the station taken.
use project_dia.Prelude.{◌≡◌, refl, List, [], ◌∷◌, first, where_}
use project_dia.Prelude.Int.{pos_part, neg_part, ◌-ℤ◌, ◌+ℤ◌}
use project_dia.Domain.{Time, Pass, approved, band_eq, mode_is_empty, visibility_is_empty}
use project_dia.Domain.Clock.{difference}
use project_dia.Errors.{conflict}
use project_dia.Store.World.{err, in_tx, pooled}
use project_dia.Store.Order.{order_by, insert_by, latest}
use project_dia.Store.Passes.Table.{row_violation, first_violation, clash, first_violation-IsValid}
use project_dia.Scheduling.Rules.{reservation_for, check_lead_time}
use project_dia.Scheduling.Service.{needs_pipeline}
use project_dia.Scheduling.Service.Booking.{request_pass, override_in_tx}
use project_dia.Scheduling.Service.Requests.{Bookable}
use project_dia.Scheduling.Service.Outcome.{request_pass_taken}
use project_dia.Scheduling.Service.Hull.{Holds, in_the_way}
use project_dia.Prelude.{where_}
use project_dia.Domain.{executing, pending_approval, status_eq}
use project_dia.Errors.{not_found}
use project_dia.Store.Passes.Invariant.{InOrder}
use project_dia.Scheduling.Service.Override.{Runs, override-executing}
use project_dia.Prelude.Int.{neg_part}
use project_dia.Tests.Fixtures.{
  at_minute, alice, root, pass_with, world_with, service, input, satellite, station, config, worker,
  tle, predicted,
}

unfoldable bookable : (passes : List Pass) → Bookable service input (world_with passes)
unfolding first order_by insert_by latest where_ band_eq pos_part neg_part difference ◌-ℤ◌ ◌+ℤ◌
    check_lead_time needs_pipeline mode_is_empty
bookable passes = record {
  satellite = satellite;
  station = station;
  config = config;
  worker = worker;
  tle = tle;
  candidates = predicted ∷ [];
  predicted = predicted;
  has_satellite = refl;
  schedulable = refl;
  valid_band = refl;
  has_station = refl;
  has_config = refl;
  has_worker = refl;
  is_online = refl;
  has_tle = refl;
  predicts = refl;
  is_matched = refl;
  early = refl;
  has_pipeline = refl;
}

abbrev taken : Pass
taken = pass_with 60 approved

request_pass_taken_example :
    (from : Time) × (to : Time) × ((request_pass service alice input (world_with (taken ∷ []))).0
      ≡ err (conflict from to))
    × Holds from to (
        in_the_way
          (world_with (taken ∷ [])).db
          10
          (reservation_for predicted.aos predicted.los config))
    × ((request_pass service alice input (world_with (taken ∷ []))).1.db
        ≡ (world_with (taken ∷ [])).db)
unfolding bookable clash row_violation pos_part neg_part reservation_for ◌-ℤ◌ ◌+ℤ◌ mode_is_empty
    visibility_is_empty
request_pass_taken_example =
    request_pass_taken service alice input (world_with (taken ∷ [])) (bookable (taken ∷ []))
      (λ n. refl) refl refl refl

abbrev recorded : Pass
recorded = pass_with 60 executing

abbrev wanted : Pass
wanted = pass_with 0 pending_approval

recorded-InOrder : InOrder (world_with (recorded ∷ [])).db
unfolding first_violation row_violation pos_part neg_part
recorded-InOrder = first_violation-IsValid (recorded ∷ []) refl

runs : Runs 60 (world_with (recorded ∷ []))
unfolding first
runs = record { row = recorded; is_row = refl; is_executing = refl }

override-executing_example :
    ((in_tx pooled (λ _. override_in_tx root (at_minute 1) wanted) (world_with (recorded ∷ []))).0
      ≡ err not_found)
    × ((in_tx pooled
          (λ _. override_in_tx root (at_minute 1) wanted)
          (world_with (recorded ∷ []))).1.db
        ≡ (world_with (recorded ∷ [])).db)
unfolding where_ status_eq pos_part neg_part
override-executing_example =
    override-executing root (at_minute 1) wanted 60 (world_with (recorded ∷ [])) (λ n. refl)
      recorded-InOrder runs refl refl
