-- ===== src/Tests/Http.antt =====
-- Requests to the HTTP API.
use project_dia.Prelude.{
  ◌*◌, ◌≤◌, ◌≡◌, ◌≢◌, ◌∙◌, sym, ◌↔◌, refl, true, none, some, List, [], ◌∷◌, Pairwise, first, where_,
  inl, String,
}
use project_dia.Prelude.Int.{pos, pos_part, neg_part}
use project_dia.Prelude.Text.{Text, codes, text_eq, after_prefix, trim_space, trim_left, trim_right}
use project_dia.Domain.{
  User, UserRole, Pass, approved, public, second, role_eq, visibility_is_public,
}
use project_dia.Errors.{answered}
use project_dia.Store.World.{
  World, ok, err, query_row, statement, rescue, raise, pure, refuse_if, ◌>>=◌, ◌>>◌,
}
use project_dia.Store.Order.{order_by, insert_by}
use project_dia.Store.Listing.{list_passes, wants}
use project_dia.Store.Passes.Invariant.{InOrder}
use project_dia.Store.Passes.Table.{first_violation, row_violation, first_violation-IsValid}
use project_dia.Store.Sessions.{key, get, redis}
use project_dia.Store.Users.{get_user_by_id}
use project_dia.Store.Users.Roots.{roots_of}
use project_dia.Auth.Service.{resolve}
use project_dia.Scheduling.Rules.{can_view_pass}
use project_dia.System.Safety.{NotDoubleBooked}
use project_dia.Http.Answers.{Reply, passes_body, to_pass_view, or_answer, unauthenticated_answer}
use project_dia.Http.Guards.{bearer_token, authenticated, require_auth, require_password_changed}
use project_dia.Http.Passes.{seconds, handle_list_passes, filter_for}
use project_dia.Http.Passes.Seconds.{seconds_iff, most_seconds}
use project_dia.Http.Routes.{
  HttpServer, Endpoint, get_me, get_users, get_passes, post_cancel, patch_user, serve,
}
use project_dia.Http.Routes.Refusals.{serve-forbidden, serve-anonymous}
use project_dia.System.Calendar.{Runs, calendar_of}
use project_dia.Http.Routes.Safety.{
  http-Runs, http_deployed, serve_all, http-NotDoubleBooked, http-SameRoots,
}
use project_dia.Http.Routes.Privacy.{Views, IsDiscreet, serve-IsDiscreet}
use project_dia.Tests.Accounts.{auth, crypto}
use project_dia.Tests.Fixtures.{
  at_minute, pass_with, tables_with, world_with, machine, predicted, user_with, root,
}

abbrev server : HttpServer
server = http_deployed auth (λ _ _. some (predicted ∷ [])) machine (λ _. none) (λ _. true)

abbrev header : Text
header = codes "Bearer abc"

-- A public pass that Alice requested.
abbrev shown : Pass
shown = record (pass_with 60 approved) { visibility = public }

-- The token `abc` stands for a user.
abbrev serving : User → World
serving user = record (world_with (shown ∷ [])) {
  db = record (tables_with (shown ∷ [])) { users = user ∷ root ∷ [] };
  sessions =
      record {
        key = key crypto.sha256_hex (codes "abc");
        session = record { user_id = user.id; role = user.role; created_at = pos 0 };
        expires_at = at_minute 60;
      }
      ∷ [];
}

abbrev bob : User
bob = user_with 2 UserRole.user

shown-InOrder : InOrder (serving bob).db
unfolding first_violation row_violation pos_part neg_part
shown-InOrder = first_violation-IsValid (shown ∷ []) refl

-- Bob cancels, and then he asks to become root.
abbrev requests : List (Endpoint × Text)
requests =
    (post_cancel (some 60), header) ∷ (patch_user (some 2) (some (some UserRole.root)), header) ∷ []

http-NotDoubleBooked_example :
    Pairwise NotDoubleBooked (serve_all server (serving bob) requests).db.passes
http-NotDoubleBooked_example =
    http-NotDoubleBooked auth (λ _ _. some (predicted ∷ [])) machine (λ _. none) (λ _. true)
      (serving bob) requests shown-InOrder

http-SameRoots_example :
    roots_of (serving bob).db.users ≡ roots_of (serve_all server (serving bob) requests).db.users
http-SameRoots_example =
    http-SameRoots auth (λ _ _. some (predicted ∷ [])) machine (λ _. none) (λ _. true) (serving bob)
      requests

http-Runs_example :
    Runs
      (calendar_of (serving bob).db.passes)
      (calendar_of (serve_all server (serving bob) requests).db.passes)
http-Runs_example =
    http-Runs auth (λ _ _. some (predicted ∷ [])) machine (λ _. none) (λ _. true) (serving bob)
      requests

given : bearer_token header ≡ codes "abc"
unfolding bearer_token after_prefix trim_space trim_left trim_right
given = refl

not_empty : bearer_token header ≢ []
not_empty e = let h : codes "abc" ≡ [] = sym given ∙ e in cc

found :
    resolve server.auth (bearer_token header) (serving bob)
    ≡ (ok bob, (resolve server.auth (bearer_token header) (serving bob)).1)
unfolding bearer_token after_prefix trim_space trim_left trim_right resolve get redis rescue raise
    get_user_by_id query_row statement first text_eq key ◌>>=◌ pos_part neg_part
found = refl

serve-forbidden_example :
    (kind : String) × (serve server get_users header (serving bob)
      ≡ (err (answered 403 kind), (resolve server.auth (bearer_token header) (serving bob)).1))
unfolding role_eq
serve-forbidden_example =
    serve-forbidden server get_users header (serving bob) _ bob not_empty found refl

serve-anonymous_example :
    serve server get_me [] (serving bob) ≡ (err unauthenticated_answer, serving bob)
unfolding bearer_token after_prefix
serve-anonymous_example =
    serve-anonymous server get_me [] (serving bob) (serving bob) refl (inl (refl, refl))

abbrev listing : Reply
listing = record { code = 200; body = passes_body (to_pass_view shown bob ∷ []) }

listed :
    serve server (get_passes "public" none) header (serving bob)
    ≡ (ok listing, (serve server (get_passes "public" none) header (serving bob)).1)
unfolding serve authenticated require_auth require_password_changed or_answer handle_list_passes
    filter_for list_passes wants order_by insert_by where_ can_view_pass bearer_token after_prefix
    trim_space trim_left trim_right resolve get redis rescue raise pure refuse_if get_user_by_id
    query_row statement first text_eq key ◌>>=◌ ◌>>◌ visibility_is_public pos_part neg_part
listed = refl

serve-IsDiscreet_example :
    (user : User) × (u : World) × (resolve server.auth (bearer_token header) (serving bob)
      ≡ (ok user, u))
    × Views (IsDiscreet user) listing.body
serve-IsDiscreet_example =
    serve-IsDiscreet server (get_passes "public" none) header (serving bob) _ listing refl listed

-- More seconds than fit come out as another length.
seconds_iff_example :
    (seconds (pos 9223372037) ≡ pos (9223372037 * second)) ↔ (9223372037 ≤ most_seconds)
seconds_iff_example = seconds_iff 9223372037
