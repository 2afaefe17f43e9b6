-- ===== src/Scheduling/Rules/Laws.antt =====
-- server/go/internal/scheduling/rules.go: reservations, lead times and permissions.
use project_dia.Prelude.{◌≡◌, ◌↔◌, true, false, ◌||◌, none, arith}
use project_dia.Prelude.Int.{pos, pos_part, neg_part, ◌+ℤ◌, ◌≤ℤ◌, ◌<ℤ◌, int_laws}
use project_dia.Domain.{Time, User, Pass, SchedulingConfig, visibility_is_public}
use project_dia.Scheduling.Rules.{
  Reservation, before, overlaps, reservation_for, check_lead_time, can_view_pass, can_cancel_pass,
}

-- The instants of a reservation: it is closed below and open above.
abbrev pub Within : Time → Reservation → Type 0
Within t r = (r.from ≤ℤ t) × (t <ℤ r.to)

common : Reservation → Reservation → Time
common r s = elim (before r.from s.from) [ true ↦ s.from | false ↦ r.from ]

-- Two reservations that are not empty overlap exactly when some instant lies in both.
pub overlaps_iff :
    (r s : Reservation)
    → r.from <ℤ r.to
    → s.from <ℤ s.to
    → (overlaps r s ≡ true) ↔ ((t : Time) × (Within t r × Within t s))
unfolding overlaps common
overlaps_iff r s hr hs = (λ h. (common r s, ground arith), λ (t, inside). ground arith)

-- With buffers that are not negative, the reservation covers the pass, as the database demands.
pub reservation_for_covers :
    (aos los : Time) (config : SchedulingConfig)
    → pos 0 ≤ℤ config.pre_pass_buffer
    → pos 0 ≤ℤ config.post_pass_buffer
    → ((reservation_for aos los config).from ≤ℤ aos) × (los ≤ℤ (reservation_for aos los config).to)
unfolding reservation_for pos_part neg_part
reservation_for_covers aos los config hpre hpost = omega int_laws

-- A start is refused exactly when it comes before the present plus the minimum lead time.
pub check_lead_time_iff :
    (now aos : Time) (config : SchedulingConfig)
    → (check_lead_time now aos config ≡ none) ↔ (now +ℤ config.minimum_lead_time ≤ℤ aos)
unfolding check_lead_time
check_lead_time_iff now aos config = (λ h. ground arith, λ h. ground arith)

-- A pass is shown to everybody if it is public, and else to those who may cancel it.
pub can_view-can_cancel :
    (actor : User) (pass : Pass)
    → can_view_pass actor pass
      ≡ (visibility_is_public pass.visibility || can_cancel_pass actor pass)
unfolding can_view_pass can_cancel_pass
can_view-can_cancel actor pass = ground arith
