-- ===== src/Http/Routes/Safety.antt =====
-- The HTTP API as a whole: requests to the routes of server/go/internal/httpapi/server.go, in any order,
-- from anybody.
use mathlib.Core.Path.{subst}
use project_dia.Prelude.{ℕ, ◌≡◌, Bool, List, [], ◌∷◌, Pairwise, String, Option}
use project_dia.Prelude.Text.{Text}
use project_dia.Domain.{Uuid, Float64}
use project_dia.Store.World.{World, Db}
use project_dia.Store.Passes.Invariant.{InOrder, put_passes-InOrder}
use project_dia.Store.Passes.Table.{IsValid}
use project_dia.Store.Passes.Steps.{Steps}
use project_dia.Store.Users.Effects.{without_user}
use project_dia.Store.Users.Root.{UserSteps}
use project_dia.Store.Users.Roots.{roots_of, SameRoots-steps, SameRoots-users}
use project_dia.Store.Users.Bookings.{booking_users}
use project_dia.Scheduling.Safety.{PlansMove}
use project_dia.System.Safety.{
  StaysInOrder, in_order_pre, in_order_steps, NotDoubleBooked, InOrder-NotDoubleBooked,
}
use project_dia.System.Calendar.{Runs, calendar_of}
use project_dia.System.Calendar.Refinement.{calendar_steps, calendar_users}
use project_dia.System.Deployed.{deployed, generator-PlansMove}
use project_dia.Auth.Service.{AuthService}
use project_dia.Prediction.{PredictionRequest, PredictedPass}
use project_dia.PassPlan.Wire.{Machine}
use project_dia.Http.Routes.{HttpServer, Endpoint, serve}
use project_dia.Http.Routes.Effects.{Moves-serve}

-- The world after some requests, each an endpoint with the header that authorises it.
unfoldable pub serve_all : HttpServer → World → List (Endpoint × Text) → World
serve_all s w [] = w
serve_all s w ((e, header) ∷ rest) = serve_all s (serve s e header w).1 rest

module _ {ℓ} {R : Db → Db → Type ℓ} (steps : Steps R) (users : UserSteps R) (s : HttpServer)
    (plans : PlansMove R s.scheduling.plans) where
  serve_all-moves : (w : World) (rs : List (Endpoint × Text)) → R w.db (serve_all s w rs).db
  unfolding serve_all
  serve_all-moves w [] = steps.pre.refl_at w.db
  serve_all-moves w ((e, header) ∷ rest) =
      steps.pre.trans_at w.db _ _ ((Moves-serve steps users s e header plans).at w)
        (serve_all-moves (serve s e header w).1 rest)

in_order_users : UserSteps StaysInOrder
in_order_users =
    booking_users in_order_pre (λ c d same h. subst IsValid same h)
      (λ id n m c d put _. put_passes-InOrder _ m _ (without_user id c) d put)

-- The server as server/go/cmd/aagasa-server/main.go puts it together.
module _ (auth : AuthService) (predictor : ℕ → PredictionRequest → Option (List PredictedPass))
    (machine : Machine) (parse_uuid : String → Option Uuid) (is_elevation : Float64 → Bool) where
  abbrev pub http_deployed : HttpServer
  http_deployed = record {
    auth = auth;
    scheduling = (deployed predictor machine parse_uuid).service;
    is_elevation = is_elevation;
    unmarshal = machine.unmarshal;
  }

  -- From tables in order, whatever is requested of the HTTP API by whomever, whatever fails and
  -- whatever the clock, Redis and the database answer, accounts that are deleted included, no instant
  -- is ever reserved by two passes that hold the same station.
  pub http-NotDoubleBooked :
      (w : World) (rs : List (Endpoint × Text))
      → InOrder w.db
      → Pairwise NotDoubleBooked (serve_all http_deployed w rs).db.passes
  http-NotDoubleBooked w rs v =
      InOrder-NotDoubleBooked _
        (serve_all-moves in_order_steps in_order_users http_deployed
          (generator-PlansMove predictor machine parse_uuid in_order_steps) w rs v).1

  -- Whatever is requested of the HTTP API by whomever and whatever fails, the users who are root stay
  -- the same: nobody becomes root, and no root is deleted or demoted.
  pub http-SameRoots :
      (w : World) (rs : List (Endpoint × Text))
      → roots_of w.db.users ≡ roots_of (serve_all http_deployed w rs).db.users
  http-SameRoots w rs =
      serve_all-moves SameRoots-steps SameRoots-users http_deployed
        (generator-PlansMove predictor machine parse_uuid SameRoots-steps) w rs

  -- Seen as a calendar of bookings, the table of passes makes only steps of the calendar while requests
  -- come to the HTTP API from whomever and whatever fails: a booking is added only where it shares no
  -- instant with any other of its station, and otherwise bookings are given back; none is moved.
  pub http-Runs :
      (w : World) (rs : List (Endpoint × Text))
      → Runs (calendar_of w.db.passes) (calendar_of (serve_all http_deployed w rs).db.passes)
  http-Runs w rs =
      serve_all-moves calendar_steps calendar_users http_deployed
        (generator-PlansMove predictor machine parse_uuid calendar_steps) w rs
