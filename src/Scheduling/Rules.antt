-- ===== src/Scheduling/Rules.antt =====
-- server/go/internal/scheduling/rules.go. A time is a number of nanoseconds, so `Before` is an
-- order of integers and `Add` a sum; the text of a warning keeps the two band names that it cites.
pub mod Laws
use project_dia.Prelude.{
  ℕ, ◌≡◌, String, Bool, true, ◌&&◌, ◌||◌, Option, none, some, ◌==◌, if◌then◌else◌,
}
use project_dia.Prelude.Int.{ℤ, ◌+ℤ◌, ◌-ℤ◌, ltb_ℤ}
use project_dia.Domain.{
  Time, Duration, User, Pass, SchedulingConfig, RfBand, vhf, uhf, CancellationReason, by_owner,
  by_admin, UserRole, band_eq, role_eq, visibility_is_public,
}

pub record Reservation : Type 0 where
  pub from : Time
  pub to : Time

unfoldable pub reservation_for : Time → Time → SchedulingConfig → Reservation
reservation_for aos los config = record {
  from = aos -ℤ config.pre_pass_buffer;
  to = los +ℤ config.post_pass_buffer;
}

abbrev pub before : Time → Time → Bool
before a b = ltb_ℤ a b

unfoldable pub overlaps : Reservation → Reservation → Bool
overlaps r s = before r.from s.to && before s.from r.to

-- `some` is the earliest bookable start that the error cites.
unfoldable pub check_lead_time : Time → Time → SchedulingConfig → Option Time
check_lead_time now aos config =
    let earliest = now +ℤ config.minimum_lead_time in
    if before aos earliest then some earliest else none

unfoldable pub effective_from_for_new_config : Time → Duration → Duration → Time
effective_from_for_new_config now current_lead_time new_lead_time =
    if ltb_ℤ new_lead_time current_lead_time then now +ℤ new_lead_time else now

pub record Warning : Type 0 where
  pub code : String
  pub station_band : String
  pub pass_band : String

abbrev pub warning_band_mismatch : String
warning_band_mismatch = "band_mismatch"

abbrev pub upper : RfBand → String
upper vhf = "VHF"
upper uhf = "UHF"
upper (RfBand.unknown s) = s

unfoldable pub band_mismatch_warning : RfBand → RfBand → Option Warning
unfolding band_eq
band_mismatch_warning pass_band station_band =
    if band_eq pass_band station_band
    then none
    else some (record {
      code = warning_band_mismatch;
      station_band = upper station_band;
      pass_band = upper pass_band;
    })

abbrev is_admin_or_root : UserRole → Bool
is_admin_or_root role = role_eq role UserRole.admin || role_eq role UserRole.root

unfoldable pub can_view_pass : User → Pass → Bool
unfolding role_eq visibility_is_public
can_view_pass actor pass =
    if visibility_is_public pass.visibility
    then true
    else if pass.requested_by == actor.id
    then true
    else is_admin_or_root actor.role

unfoldable pub can_cancel_pass : User → Pass → Bool
unfolding role_eq
can_cancel_pass actor pass =
    if pass.requested_by == actor.id then true else is_admin_or_root actor.role

unfoldable pub cancellation_reason_for : User → Pass → CancellationReason
cancellation_reason_for actor pass = if pass.requested_by == actor.id then by_owner else by_admin
