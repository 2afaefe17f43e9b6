-- ===== src/System/Calendar.antt =====
-- What the table of passes (server/go/internal/store) promises: a calendar of the reservations of the
-- stations, in which one books a time that is free and gives a time back. Everything else about a pass
-- is forgotten.
pub mod Refinement
use project_dia.Prelude.{
  ℕ, ◌≡◌, refl, Bool, true, false, List, [], ◌∷◌, All, update, Bool-cases, inl, inr, if◌then◌else◌,
}
use project_dia.Domain.{Uuid, Time, Pass}
use project_dia.Scheduling.StateMachine.{holds_station_resource}
use project_dia.Scheduling.Rules.{Reservation}
use project_dia.Scheduling.Rules.Laws.{Within}

pub record Booking : Type 0 where
  pub id : Uuid
  pub station_id : Uuid
  pub reservation : Reservation

abbrev pub Calendar : Type 0
Calendar = List Booking

-- No instant of one booking is one of the other, at the same station.
abbrev pub IsClear : Booking → Booking → Type 0
IsClear b c =
    b.station_id ≡ c.station_id → (t : Time) → ¬ (Within t b.reservation × Within t c.reservation)

-- The second calendar is the first without some of its bookings.
pub data Keeps : Calendar → Calendar → Type 0 where
  nothing : Keeps [] []
  kept : {b : Booking} {c d : Calendar} → Keeps c d → Keeps (b ∷ c) (b ∷ d)
  released : {b : Booking} {c d : Calendar} → Keeps c d → Keeps (b ∷ c) d

infix 4 ◌⇒◌
pub data ◌⇒◌ : Calendar → Calendar → Type 0 where
  books : {b : Booking} {c : Calendar} → All (IsClear b) c → c ⇒ (b ∷ c)
  releases : {c d : Calendar} → Keeps c d → c ⇒ d

-- Any number of steps.
pub data Runs : Calendar → Calendar → Type 0 where
  stays : {c : Calendar} → Runs c c
  steps : {c d e : Calendar} → Runs c d → d ⇒ e → Runs c e

-- The calendar that a table of passes stands for.
abbrev pub booking_of : Pass → Booking
booking_of p = record {
  id = p.id;
  station_id = p.station_id;
  reservation = record { from = p.reserved_from; to = p.reserved_to };
}

abbrev pub with_booking : Bool → Booking → Calendar → Calendar
with_booking true b c = b ∷ c
with_booking false b c = c

unfoldable pub calendar_of : List Pass → Calendar
unfolding holds_station_resource
calendar_of [] = []
calendar_of (p ∷ ps) =
    with_booking (holds_station_resource p.status) (booking_of p) (calendar_of ps)
