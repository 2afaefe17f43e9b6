-- ===== src/Scheduling/Service/Booking.antt =====
-- server/go/internal/scheduling/service.go: `RequestPass` and `RequestPassWithRootOverride`.
use project_dia.Prelude.{not, ◌&&◌, Option, none, some, List, [], ◌∷◌, if◌then◌else◌}
use project_dia.Domain.{
  identified, Uuid, Time, User, Pass, vhf, uhf, by_root_override, UserRole, approved, band_eq,
  role_eq,
}
use project_dia.Errors.{
  lead_time, not_schedulable, pipeline_required, forbidden, invalid_band, no_orbital_data,
  is_not_found, is_station_overlap,
}
use project_dia.Store.World.{
  Action, pure, raise, rescue, now, refuse_if, in_tx, pooled, ◌>>=◌, ◌>>◌,
}
use project_dia.Store.Reads.{get_satellite_by_id, latest_tle_record, append_audit}
use project_dia.Store.Passes.{create_pass, find_conflicting_passes, cancel_pass, approve_pass}
use project_dia.Scheduling.StateMachine.{live_statuses}
use project_dia.Scheduling.Rules.{reservation_for, check_lead_time, band_mismatch_warning}
use project_dia.Scheduling.Service.{
  Service, RequestInput, Booked, resolve_pass, conflict_for, station_and_config,
  require_worker_online, generate_plan, audit, needs_pipeline, mode_or_raw, warnings_of, is_none,
  new_pass,
}

abbrev pub refuse_some : Option Time → Action (Unit {0})
refuse_some none = pure tt
refuse_some (some earliest) = raise (lead_time earliest)

unfoldable pub request_pass : Service → User → RequestInput → Action Booked
request_pass s actor input = do
  satellite ← get_satellite_by_id input.satellite_id
  refuse_if (not satellite.is_schedulable) not_schedulable
  refuse_if (not (band_eq input.band vhf) && not (band_eq input.band uhf)) invalid_band
  (station, config) ← station_and_config
  require_worker_online station.id
  tle ←
      rescue (latest_tle_record satellite.id)
        λ e. if is_not_found e then raise (no_orbital_data satellite.norad_id) else raise e
  predicted ← resolve_pass s station config tle input.requested_aos
  at ← now
  refuse_some (check_lead_time at predicted.aos config)
  let reservation = reservation_for predicted.aos predicted.los config
  let warnings = warnings_of (band_mismatch_warning input.band station.active_rf_band)
  refuse_if (needs_pipeline (mode_or_raw input.recording_mode) && is_none input.pipeline_id)
      pipeline_required
  created ←
      rescue (create_pass (new_pass actor input satellite station config tle predicted reservation))
        λ e.
          if is_station_overlap e
          then (do refusal ← conflict_for station.id reservation; raise refusal)
          else raise e
  audit (some actor.id) "pass.requested" created.id
  pure (record { pass = created; warnings = warnings; overridden_pass_ids = [] })

-- The loop over the conflicting passes.
unfoldable pub cancel_conflicts : User → Time → List Pass → Action (List Uuid)
cancel_conflicts actor at [] = pure []
cancel_conflicts actor at (p ∷ ps) = do
  cancel_pass p.id actor.id by_root_override at
  append_audit (record {
    actor_user_id = some actor.id;
    action = "pass.cancelled_by_root_override";
    entity_type = "pass";
    entity_id = identified p.id;
    reason = "root override";
  })
  overridden ← cancel_conflicts actor at ps
  pure (p.id ∷ overridden)

-- The function that runs in the transaction.
unfoldable pub override_in_tx : User → Time → Pass → Action (Pass × List Uuid)
override_in_tx actor at pass = do
  conflicts ←
      find_conflicting_passes pass.station_id pass.reserved_from pass.reserved_to live_statuses
  overridden ← cancel_conflicts actor at conflicts
  created ← create_pass pass
  approve_pass created.id actor.id at
  append_audit (record {
    actor_user_id = some actor.id;
    action = "pass.root_override_created";
    entity_type = "pass";
    entity_id = identified created.id;
    reason = "";
  })
  pure (
    record created { status = approved; approved_by = some actor.id; approved_at = some at },
    overridden,
  )

unfoldable pub request_pass_with_root_override : Service → User → RequestInput → Action Booked
request_pass_with_root_override s actor input = do
  refuse_if (not (role_eq actor.role UserRole.root)) forbidden
  satellite ← get_satellite_by_id input.satellite_id
  refuse_if (not satellite.is_schedulable) not_schedulable
  (station, config) ← station_and_config
  require_worker_online station.id
  tle ← latest_tle_record satellite.id
  predicted ← resolve_pass s station config tle input.requested_aos
  at ← now
  refuse_some (check_lead_time at predicted.aos config)
  let reservation = reservation_for predicted.aos predicted.los config
  let warnings = warnings_of (band_mismatch_warning input.band station.active_rf_band)
  refuse_if (needs_pipeline (mode_or_raw input.recording_mode) && is_none input.pipeline_id)
      pipeline_required
  (created, overridden) ← in_tx pooled λ _.
      override_in_tx actor at
        (new_pass actor input satellite station config tle predicted reservation)
  generate_plan s created
  pure (record { pass = created; warnings = warnings; overridden_pass_ids = overridden })
