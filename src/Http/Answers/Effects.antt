-- ===== src/Http/Answers/Effects.antt =====
-- What answering does to the tables.
use project_dia.Prelude.{Option, String}
use project_dia.Domain.{Uuid, User}
use project_dia.Errors.{Error}
use project_dia.Store.World.{Db, Action}
use project_dia.Store.World.Moves.{
  IsPreorder, Moves, Moves-pure, Moves-raise, Moves-bind, Moves-then, Moves-unless, Moves-if,
  Moves-rescue, Moves-require, moves_rules,
}
use project_dia.Store.Passes.Steps.{Steps, Moves-append_audit}
use project_dia.Store.Users.Root.{UserSteps, user_moves}
use project_dia.Http.Answers.{or_answer, decoded, audit}

module _ {ℓ κ} {A : Type κ} {R : Db → Db → Type ℓ} (pre : IsPreorder R) where
  pub Moves-or_answer :
      (write : Error → Error) (m : Action A) → Moves R m → Moves R (or_answer write m)
  unfolding or_answer
  Moves-or_answer write m h = Moves-rescue pre m _ h (λ e. Moves-raise pre (write e))

  pub Moves-decoded : (body : Option A) → Moves R (decoded body)
  unfolding decoded
  Moves-decoded body = Moves-require pre body _

pub ruleset http_moves = (moves_rules, user_moves, Moves-or_answer, Moves-decoded)

module _ {ℓ} {R : Db → Db → Type ℓ} (steps : Steps R) where
  pub Moves-audit :
      (actor : User) (action entity_type : String) (id : Uuid)
      → Moves R (audit actor action entity_type id)
  unfolding audit
  Moves-audit actor action entity_type id =
      search (moves_rules, steps, steps.pre, Moves-append_audit)
