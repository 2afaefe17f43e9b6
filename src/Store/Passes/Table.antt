-- ===== src/Store/Passes/Table.antt =====
-- The constraints on the table `passes` (server/go/internal/store/migrations/
-- 00001_initial_schema.sql). A table is in order when `first_violation` finds nothing.
use project_dia.Prelude.{
  ◌≡◌, ◌≢◌, refl, Bool, true, false, not, ◌&&◌, Option, none, some, List, [], ◌∷◌, arith, ◌==◌,
  ◌||◌, ◌+◌, ◌^◌, ltb, leb, if◌then◌else◌, any, All, Pairwise, String,
}
use project_dia.Prelude.Int.{ltb_ℤ, leb_ℤ, pos}
use project_dia.Domain.{
  Time, Pass, PassStatus, cancelled, pending_approval, approved, executing, RfBand, PassVisibility,
  Float64, RecordingMode, CancellationReason,
}
use project_dia.Errors.{DbError, pg, overlap_constraint_name, unique_violation}

abbrev pub check_violation : String
check_violation = "23514"

-- A text that is no value of the column's enumeration.
abbrev pub invalid_text : String
invalid_text = "22P02"

abbrev known_status : PassStatus → Bool
known_status (PassStatus.unknown s) = false
known_status _ = true

abbrev known_band : RfBand → Bool
known_band (RfBand.unknown s) = false
known_band _ = true

abbrev known_visibility : PassVisibility → Bool
known_visibility (PassVisibility.unknown s) = false
known_visibility _ = true

abbrev known_mode : RecordingMode → Bool
known_mode (RecordingMode.unknown s) = false
known_mode _ = true

abbrev is_cancelled : PassStatus → Bool
is_cancelled cancelled = true
is_cancelled _ = false

abbrev has_reason : Option CancellationReason → Bool
has_reason none = false
has_reason (some r) = true

abbrev agree : Bool → Bool → Bool
agree true b = b
agree false b = not b

-- Whether a float64, given by its bits, is between 0 and 90 once it is rounded to tenths as a
-- `numeric(4, 1)`: the bits of floats of one sign are ordered as the floats are, 4636037122350068531
-- and 4587366580439587226 are those of 90.05 and of 0.05, and the sign stands in the highest bit.
abbrev pub is_elevation : Float64 → Bool
is_elevation x = ltb x 4636037122350068531 || leb (2 ^ 63) x && ltb x (2 ^ 63 + 4587366580439587226)

unfoldable pub row_violation : Pass → Option DbError
row_violation p =
    if not (
      known_status p.status
      && known_band p.band
      && known_visibility p.visibility
      && known_mode p.recording_mode)
    then some (pg "" invalid_text)
    else if not (is_elevation p.max_elevation_degrees)
    then some (pg "passes_max_elevation_degrees_check" check_violation)
    else if not (ltb_ℤ p.aos_at p.los_at)
    then some (pg "passes_los_after_aos" check_violation)
    else if not (leb_ℤ p.reserved_from p.aos_at && leb_ℤ p.los_at p.reserved_to)
    then some (pg "passes_reservation_covers_pass" check_violation)
    else if not (leb_ℤ (pos 0) p.recording_pre_roll && leb_ℤ (pos 0) p.recording_post_roll)
    then some (pg "passes_recording_roll_check" check_violation)
    else if not (agree (is_cancelled p.status) (has_reason p.cancellation_reason))
    then some (pg "passes_cancellation_fields_agree" check_violation)
    else none

-- `&&` on two ranges that are closed below and open above; an empty range overlaps nothing.
abbrev pub ranges_overlap : Time → Time → Time → Time → Bool
ranges_overlap a b c d = ltb_ℤ a b && ltb_ℤ c d && ltb_ℤ a d && ltb_ℤ c b

-- `WHERE (status IN ('pending_approval', 'approved', 'executing'))` of the exclusion
abbrev pub reserves : PassStatus → Bool
reserves pending_approval = true
reserves approved = true
reserves executing = true
reserves _ = false

-- `EXCLUDE USING gist (station_id WITH =, reservation WITH &&)`
unfoldable pub clash : Pass → Pass → Bool
clash p q =
    reserves p.status
    && reserves q.status
    && p.station_id == q.station_id
    && ranges_overlap p.reserved_from p.reserved_to q.reserved_from q.reserved_to

abbrev or_else : Option DbError → Option DbError → Option DbError
or_else (some e) o = some e
or_else none o = o

abbrev pair_violation : Pass → List Pass → Option DbError
pair_violation p ps =
    if any (λ q. p.id == q.id) ps
    then some (pg "passes_pkey" unique_violation)
    else if any (clash p) ps
    then some (pg overlap_constraint_name "23P01")
    else none

unfoldable pub first_violation : List Pass → Option DbError
first_violation [] = none
first_violation (p ∷ ps) =
    or_else (row_violation p) (or_else (pair_violation p ps) (first_violation ps))

-- The same said without the code: each row is in order, identifiers differ, and reservations that
-- count do not clash.
abbrev pub Apart : Pass → Pass → Type 0
Apart p q = (p.id ≢ q.id) × (clash p q ≡ false)

abbrev pub IsValid : List Pass → Type 0
IsValid ps = All (λ p. row_violation p ≡ none) ps × Pairwise Apart ps

Apart-pair : (p : Pass) (ps : List Pass) → pair_violation p ps ≡ none → All (Apart p) ps
Apart-pair p [] h = tt
Apart-pair p (q ∷ qs) h = (ground arith, Apart-pair p qs (ground arith))

pair-Apart : (p : Pass) (ps : List Pass) → All (Apart p) ps → pair_violation p ps ≡ none
pair-Apart p [] h = refl
pair-Apart p (q ∷ qs) h = ground (arith, pair-Apart p qs h.1)

pub first_violation-IsValid : (ps : List Pass) → first_violation ps ≡ none → IsValid ps
unfolding first_violation
first_violation-IsValid [] h = (tt, tt)
first_violation-IsValid (p ∷ ps) h =
    let rest = first_violation-IsValid ps (ground arith) in
    ((ground arith, rest.0), (Apart-pair p ps (ground arith), rest.1))

pub IsValid-first_violation : (ps : List Pass) → IsValid ps → first_violation ps ≡ none
unfolding first_violation
IsValid-first_violation [] h = refl
IsValid-first_violation (p ∷ ps) h =
    rw (h.0.0, pair-Apart p ps h.1.0) (IsValid-first_violation ps (h.0.1, h.1.1))
