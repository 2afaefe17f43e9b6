-- ===== src/Domain/Eq.antt =====
-- server/go/internal/domain/domain.go, lines 9-73: the named string types and their `==`.
use project_dia.Prelude.{ℕ, ◌≡◌, ◌↔◌, String, Bool, true, false, str_eq, eq_iff, ◌==◌, arith}

pub data UserRole : Type 0 where
  root admin user : UserRole
  unknown : String → UserRole

pub data RfBand : Type 0 where
  vhf uhf : RfBand
  unknown : String → RfBand

pub data PassStatus : Type 0 where
  pending_approval approved rejected cancelled executing completed failed missed : PassStatus
  unknown : String → PassStatus

pub data PassVisibility : Type 0 where
  private public : PassVisibility
  unknown : String → PassVisibility

pub data CancellationReason : Type 0 where
  by_owner by_admin by_root_override : CancellationReason

pub data RecordingMode : Type 0 where
  raw process raw_and_process : RecordingMode
  unknown : String → RecordingMode

pub data TleSource : Type 0 where
  celestrak satnogs manual : TleSource

pub data WorkerConnectionState : Type 0 where
  online offline : WorkerConnectionState

abbrev role_rank : UserRole → ℕ
role_rank UserRole.root = 0
role_rank UserRole.admin = 1
role_rank UserRole.user = 2
role_rank (UserRole.unknown s) = 3

unfoldable pub role_eq : UserRole → UserRole → Bool
role_eq (UserRole.unknown s) (UserRole.unknown t) = str_eq s t
role_eq r q = role_rank r == role_rank q

abbrev band_rank : RfBand → ℕ
band_rank RfBand.vhf = 0
band_rank RfBand.uhf = 1
band_rank (RfBand.unknown s) = 2

unfoldable pub band_eq : RfBand → RfBand → Bool
band_eq (RfBand.unknown s) (RfBand.unknown t) = str_eq s t
band_eq a b = band_rank a == band_rank b

abbrev status_rank : PassStatus → ℕ
status_rank PassStatus.pending_approval = 0
status_rank PassStatus.approved = 1
status_rank PassStatus.rejected = 2
status_rank PassStatus.cancelled = 3
status_rank PassStatus.executing = 4
status_rank PassStatus.completed = 5
status_rank PassStatus.failed = 6
status_rank PassStatus.missed = 7
status_rank (PassStatus.unknown s) = 8

unfoldable pub status_eq : PassStatus → PassStatus → Bool
status_eq (PassStatus.unknown s) (PassStatus.unknown t) = str_eq s t
status_eq a b = status_rank a == status_rank b

-- `role == ""`
unfoldable pub role_is_empty : UserRole → Bool
role_is_empty (UserRole.unknown s) = str_eq s ""
role_is_empty _ = false

-- `visibility == ""`
unfoldable pub visibility_is_empty : PassVisibility → Bool
visibility_is_empty (PassVisibility.unknown s) = str_eq s ""
visibility_is_empty _ = false

unfoldable pub visibility_is_public : PassVisibility → Bool
visibility_is_public PassVisibility.public = true
visibility_is_public _ = false

-- `recordingMode == ""`
unfoldable pub mode_is_empty : RecordingMode → Bool
mode_is_empty (RecordingMode.unknown s) = str_eq s ""
mode_is_empty _ = false

unfoldable pub state_eq : WorkerConnectionState → WorkerConnectionState → Bool
state_eq online online = true
state_eq offline offline = true
state_eq _ _ = false

pub role_eq_iff : (a b : UserRole) → (role_eq a b ≡ true) ↔ (a ≡ b)
unfolding role_eq
role_eq_iff (UserRole.unknown s) (UserRole.unknown t) = ground (arith, eq_iff s t)
role_eq_iff a b = ground arith

pub band_eq_iff : (a b : RfBand) → (band_eq a b ≡ true) ↔ (a ≡ b)
unfolding band_eq
band_eq_iff (RfBand.unknown s) (RfBand.unknown t) = ground (arith, eq_iff s t)
band_eq_iff a b = ground arith

pub status_eq_iff : (a b : PassStatus) → (status_eq a b ≡ true) ↔ (a ≡ b)
unfolding status_eq
status_eq_iff (PassStatus.unknown s) (PassStatus.unknown t) = ground (arith, eq_iff s t)
status_eq_iff a b = ground arith
