-- ===== src/Http/Routes/Privacy.antt =====
-- What the lists and the views of server/go/internal/httpapi/pass_handlers.go show to whom.
use project_dia.Prelude.{
  ◌≡◌, refl, ap, ◌∙◌, Bool, true, false, ◌||◌, ◌==◌, ==_iff, ◌⊎◌, inl, inr, Option, none, some,
  List, [], ◌∷◌, All, where_, String, Bool-cases, arith, if◌then◌else◌,
}
use mathlib.Core.Path.{subst}
use project_dia.Prelude.Text.{Text}
use project_dia.Domain.{
  Uuid, User, UserRole, Pass, PassStatus, PassVisibility, public, private, visibility_is_public,
}
use project_dia.Store.World.{World, ok}
use project_dia.Store.World.Inversion.{
  bind_inv, then_inv, refuse_if_inv, rescue-raise_inv, pure_inv,
}
use project_dia.Auth.Rbac.{at_least}
use project_dia.Auth.Service.{resolve}
use project_dia.Scheduling.Rules.{can_view_pass}
use project_dia.Http.Answers.{
  Reply, Body, passes_body, pass_body, PassView, to_pass_view, or_answer,
}
use project_dia.Http.Guards.{
  Handler, bearer_token, require_auth, require_password_changed, authenticated,
}
use project_dia.Http.Passes.{views_for, handle_list_passes, handle_get_pass}
use project_dia.Http.Routes.{HttpServer, Endpoint, get_passes, serve}
use project_dia.Http.Routes.Refusals.{is_staff, staff-at_least}

-- What a user is shown of a pass: it is public, the user's own, or the user is an admin or root; and
-- who requested it stands there for the latter two alone.
pub record IsDiscreet (actor : User) (view : PassView) : Type 0 where
  pub visible :
      (view.visibility ≡ public) ⊎ (view.requested_by ≡ some actor.id) ⊎ (is_staff actor ≡ true)
  pub requester :
      (view.requested_by ≡ none) ⊎ (view.requested_by ≡ some actor.id) ⊎ (is_staff actor ≡ true)

-- The views in a body.
abbrev pub Views : (PassView → Type 0) → Body → Type 0
Views P (passes_body views) = All P views
Views P (pass_body view) = P view
Views P _ = Unit

-- The name of the requester under the two tests that decide whether it is shown.
named_own :
    (own staff : Bool) (id : Uuid) → own ≡ true → (if own || staff then some id else none) ≡ some id
named_own own staff id h = rw h refl

named_none :
    (own staff : Bool) (id : Uuid)
    → own ≡ false
    → staff ≡ false
    → (if own || staff then some id else none) ≡ none
named_none own staff id h k = rw (h, k) refl

is_public-eq : (x : PassVisibility) → visibility_is_public x ≡ true → x ≡ public
unfolding visibility_is_public
is_public-eq public h = refl
is_public-eq private h = cc
is_public-eq (PassVisibility.unknown s) h = cc

seen_by_none :
    (shown own staff : Bool)
    → (if shown then true else if own then true else staff) ≡ true
    → own ≡ false
    → staff ≡ false
    → shown ≡ true
seen_by_none true own staff h o k = refl
seen_by_none false own staff h o k = ground arith

public_of :
    (actor : User) (p : Pass)
    → can_view_pass actor p ≡ true
    → (p.requested_by == actor.id) ≡ false
    → is_staff actor ≡ false
    → p.visibility ≡ public
unfolding can_view_pass
public_of actor p h own staff = is_public-eq p.visibility (
    seen_by_none (visibility_is_public p.visibility) (p.requested_by == actor.id) (is_staff actor) h
      own staff)

view-IsDiscreet :
    (actor : User) (p : Pass)
    → can_view_pass actor p ≡ true
    → IsDiscreet actor (to_pass_view p actor)
unfolding to_pass_view
view-IsDiscreet actor p h = elim (Bool-cases (p.requested_by == actor.id)) [
  | inl own ↦
      let same : p.requested_by ≡ actor.id = (==_iff p.requested_by actor.id).0 own in
      let shown = named_own _ (at_least actor UserRole.admin) p.requested_by own ∙ ap some same in
      record { visible = inr (inl shown); requester = inr (inl shown) }
  | inr other ↦ elim (Bool-cases (is_staff actor)) [
    | inl staff ↦ record { visible = inr (inr staff); requester = inr (inr staff) }
    | inr plain ↦ record {
      visible = inl (public_of actor p h other plain);
      requester = inl (
          named_none _ (at_least actor UserRole.admin) p.requested_by other
            (staff-at_least actor ∙ plain));
    }
  ]
]

views-IsDiscreet : (actor : User) (ps : List Pass) → All (IsDiscreet actor) (views_for actor ps)
unfolding where_
views-IsDiscreet actor [] = tt
views-IsDiscreet actor (p ∷ ps) = elim (Bool-cases (can_view_pass actor p)) [
  | inl e ↦ rw e (view-IsDiscreet actor p e, views-IsDiscreet actor ps)
  | inr e ↦ rw e (views-IsDiscreet actor ps)
]

-- A value behind the guards of an authenticated route comes from the handler, for the user of the
-- session.
guarded_inv :
    (s : HttpServer) (next : Handler Reply) (header : Text) (w v : World) (r : Reply)
    → authenticated s.auth next header w ≡ (ok r, v)
    → (user : User) × (u : World) × (resolve s.auth (bearer_token header) w ≡ (ok user, u))
      × (next user (bearer_token header) u ≡ (ok r, v))
unfolding authenticated require_auth require_password_changed or_answer
guarded_inv s next header w v r h =
    let (_, w1, given, h1) = then_inv _ _ w v r h in
    let (_, e1) = refuse_if_inv _ _ _ w w1 given in
    let (user, u, found, h2) = bind_inv _ _ w1 v r h1 in
    let (_, u', changed, h3) = then_inv _ _ u v r h2 in
    let (_, e3) = refuse_if_inv _ _ _ u u' changed in
    (
      user,
      u,
      subst (λ x. resolve s.auth (bearer_token header) x ≡ (ok user, u)) e1
          (rescue-raise_inv _ _ w1 u user found),
      subst (λ x. next user (bearer_token header) x ≡ (ok r, v)) e3 h3,
    )

list-IsDiscreet :
    (scope : String) (status : Option PassStatus) (actor : User) (token : Text) (w v : World)
    (r : Reply)
    → handle_list_passes scope status actor token w ≡ (ok r, v)
    → Views (IsDiscreet actor) r.body
unfolding handle_list_passes
list-IsDiscreet scope status actor token w v r h =
    let (filter, w1, filtered, h1) = bind_inv _ _ w v r h in
    let (ps, w2, listed, h2) = bind_inv _ _ w1 v r h1 in
    let (e, _) = pure_inv _ r w2 v h2 in
    subst (λ x. Views (IsDiscreet actor) x.body) e (views-IsDiscreet actor ps)

get-IsDiscreet :
    (path : Option Uuid) (actor : User) (token : Text) (w v : World) (r : Reply)
    → handle_get_pass path actor token w ≡ (ok r, v)
    → Views (IsDiscreet actor) r.body
unfolding handle_get_pass
get-IsDiscreet path actor token w v r h =
    let (id, w1, named, h1) = bind_inv _ _ w v r h in
    let (p, w2, found, h2) = bind_inv _ _ w1 v r h1 in
    let (_, w3, allowed, h3) = then_inv _ _ w2 v r h2 in
    let (permitted, _) = refuse_if_inv _ _ _ w2 w3 allowed in
    let (e, _) = pure_inv _ r w3 v h3 in
    subst (λ x. Views (IsDiscreet actor) x.body) e
      (view-IsDiscreet actor p (ground (arith, permitted)))

-- The endpoints that show passes to whoever has an account.
abbrev pub shows_passes : Endpoint → Bool
shows_passes (get_passes scope status) = true
shows_passes (Endpoint.get_pass path) = true
shows_passes _ = false

-- When the list of passes or a single pass is served, whatever scope and status were asked for, the
-- request carried the token of a session, and each pass that is shown is public, or the user of the
-- session requested it, or that user is an admin or root; who requested a pass is told to that user
-- and to admins and root alone.
pub serve-IsDiscreet :
    (s : HttpServer) (e : Endpoint) (header : Text) (w v : World) (r : Reply)
    → shows_passes e ≡ true
    → serve s e header w ≡ (ok r, v)
    → (user : User) × (u : World) × (resolve s.auth (bearer_token header) w ≡ (ok user, u))
      × Views (IsDiscreet user) r.body
unfolding serve
serve-IsDiscreet s (get_passes scope status) header w v r shows h =
    let (user, u, found, run) = guarded_inv s (handle_list_passes scope status) header w v r h in
    (user, u, found, list-IsDiscreet scope status user _ u v r run)
serve-IsDiscreet s (Endpoint.get_pass path) header w v r shows h =
    let (user, u, found, run) = guarded_inv s (handle_get_pass path) header w v r h in
    (user, u, found, get-IsDiscreet path user _ u v r run)
serve-IsDiscreet s e header w v r shows h = cc
