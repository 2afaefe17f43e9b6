-- ===== src/Store/Listing.antt =====
-- server/go/internal/store/passes.go: the list of passes under a filter. A missing bound is Go's zero
-- time, and a limit of 0 is no limit.
use project_dia.Prelude.{
  ℕ, zero, suc, ◌==◌, ◌&&◌, Bool, true, false, Option, none, some, List, [], ◌∷◌, any, take, where_,
  if◌then◌else◌,
}
use project_dia.Prelude.Int.{leb_ℤ}
use project_dia.Domain.{Uuid, Time, Pass, PassStatus, status_eq, visibility_is_public}
use project_dia.Errors.{pg}
use project_dia.Store.World.{Action, Effect, Db, done, failed, statement}
use project_dia.Store.Order.{order_by}
use project_dia.Store.Users.{invalid_enum_value}

pub record PassFilter : Type 0 where
  pub requested_by : Option Uuid
  pub statuses : List PassStatus
  pub from : Option Time
  pub to : Option Time
  pub only_public : Bool
  pub limit : ℕ

abbrev pub wants_requester : Option Uuid → Pass → Bool
wants_requester none p = true
wants_requester (some id) p = p.requested_by == id

abbrev pub wants_status : List PassStatus → Pass → Bool
wants_status [] p = true
wants_status (s ∷ ss) p = any (status_eq p.status) (s ∷ ss)

abbrev pub not_before : Option Time → Time → Bool
not_before none t = true
not_before (some from) t = leb_ℤ from t

abbrev pub not_after : Option Time → Time → Bool
not_after none t = true
not_after (some to) t = leb_ℤ t to

abbrev pub wants_visibility : Bool → Pass → Bool
wants_visibility false p = true
wants_visibility true p = visibility_is_public p.visibility

unfoldable pub wants : PassFilter → Pass → Bool
wants f p =
    wants_requester f.requested_by p
    && (wants_status f.statuses p
        && (not_before f.from p.aos_at
            && (not_after f.to p.aos_at && wants_visibility f.only_public p)))

abbrev pub limited : ℕ → List Pass → List Pass
limited zero ps = ps
limited (suc n) ps = take (suc n) ps

abbrev pub is_unknown_status : PassStatus → Bool
is_unknown_status (PassStatus.unknown s) = true
is_unknown_status _ = false

-- A status that the enumeration lacks makes the query fail.
abbrev pub list_effect : PassFilter → Db → Effect (List Pass)
list_effect f db =
    if any is_unknown_status f.statuses
    then failed (pg "" invalid_enum_value)
    else done (limited f.limit (order_by (λ p. p.aos_at) (where_ (wants f) db.passes))) db

unfoldable pub list_passes : PassFilter → Action (List Pass)
list_passes f = statement λ _ _ db. list_effect f db
