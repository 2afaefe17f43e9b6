-- ===== src/Store/Pipelines/Laws.antt =====
-- The table of pipelines after a worker has said which ones it has.
use mathlib.Core.List.{Memᴰ}
use mathlib.Core.List.Memᴰ
use mathlib.Core.Path.{subst}
use project_dia.Prelude.{
  ℕ, arith, ◌≢◌, ◌≡◌, refl, sym, ap, ◌⊎◌, ◌↔◌, inl, inr, Bool-cases, String, str_eq, eq_iff, not,
  Bool, true, false, Option, none, some, List, [], ◌∷◌, where_, any,
}
use project_dia.Prelude.Members.{found_any, any_found, in_where, where_in}
use project_dia.Domain.{Uuid, Pass}
use project_dia.Errors.{DbError}
use project_dia.Store.World.{World, Db, Effect, done, failed, ok, statement, attempt, Pipeline}
use project_dia.Store.World.Inversion.{then_inv, bind_inv, pure_inv}
use project_dia.Store.Pipelines.{
  is_given, uses, is_withdrawn, has_name, standard, put_new, insert_standard, insert_names,
  withdraw, replace_standard_pipelines,
}

effect_inv :
    {A : Type 0} (w v : World) (a : A) (o : Option DbError) (x : Effect A)
    → attempt w o x ≡ (ok a, v)
    → x ≡ done a v.db
effect_inv w v a (some e) x k = cc
effect_inv w v a none (done b db) k = cc
effect_inv w v a none (failed e) k = cc

statement_inv :
    {A : Type 0} (f : Uuid → Db → Effect A) (w v : World) (a : A)
    → statement (λ id _ db. f id db) w ≡ (ok a, v)
    → f (w.env.uuid w.tick) w.db ≡ done a v.db
unfolding statement
statement_inv f w v a h = effect_inv w v a (w.env.fault w.tick) _ h

done_db : {A : Type 0} (a b : A) (d e : Db) → done a d ≡ done b e → d ≡ e
done_db a b d e h = cc

-- Why a pipeline stays: it is a custom one, the worker has it, or a pass asks for it.
pub data KeptFor (names : List String) (passes : List Pass) (p : Pipeline) : Type 0 where
  is_custom : p.is_custom ≡ true → KeptFor names passes p
  is_listed : Memᴰ p.name names → KeptFor names passes p
  is_used : (q : Pass) → Memᴰ q passes → q.pipeline_id ≡ some p.id → KeptFor names passes p

-- A standard pipeline that the worker has.
abbrev pub IsFresh : List String → Pipeline → Type 0
IsFresh names p = (p.is_custom ≡ false) × Memᴰ p.name names

-- A table that has a pipeline of the name.
abbrev pub Has : Db → String → Type 0
Has db name = (p : Pipeline) × Memᴰ p db.pipelines × (p.name ≡ name)

is_given_iff : (id : Uuid) (o : Option Uuid) → (is_given id o ≡ true) ↔ (o ≡ some id)
is_given_iff id none = (λ h. cc, λ h. cc)
is_given_iff id (some x) = (λ h. ground arith, λ h. ground arith)

kept_for :
    (names : List String) (passes : List Pass) (p : Pipeline)
    → not (is_withdrawn names passes p) ≡ true
    → KeptFor names passes p
kept_for names passes p h = elim (Bool-cases p.is_custom) [
  | inl custom ↦ is_custom custom
  | inr standard ↦ elim (Bool-cases (any (str_eq p.name) names)) [
    | inl listed ↦
        let (name, member, same) = found_any (str_eq p.name) names listed in
        is_listed (subst (λ n. Memᴰ n names) (sym ((eq_iff p.name name).0 same)) member)
    | inr missing ↦
        let (q, member, given) =
          found_any (uses p.id) passes (ground (arith, h, standard, missing)) in
        is_used q member ((is_given_iff p.id q.pipeline_id).0 given)
  ]
]

not_withdrawn :
    (names : List String) (passes : List Pass) (p : Pipeline)
    → KeptFor names passes p
    → not (is_withdrawn names passes p) ≡ true
not_withdrawn names passes p (is_custom h) = rw h refl
not_withdrawn names passes p (is_listed m) =
    let found = any_found (str_eq p.name) names p.name m ((eq_iff p.name p.name).1 refl) in
    ground (arith, found)
not_withdrawn names passes p (is_used q m h) =
    let found = any_found (uses p.id) passes q m ((is_given_iff p.id q.pipeline_id).1 h) in
    ground (arith, found)

withdraw_inv :
    (names : List String) (w v : World) (n : ℕ)
    → withdraw names w ≡ (ok n, v)
    → where_ (λ p. not (is_withdrawn names w.db.passes p)) w.db.pipelines ≡ v.db.pipelines
unfolding withdraw
withdraw_inv names w v n h = ap (λ d. d.pipelines) (done_db _ n _ v.db (statement_inv _ w v n h))

record Grows (names : List String) (d e : Db) : Type 0 where
  kept : (p : Pipeline) → Memᴰ p d.pipelines → Memᴰ p e.pipelines
  fresh : (p : Pipeline) → Memᴰ p e.pipelines → Memᴰ p d.pipelines ⊎ IsFresh names p

Grows-refl : (names : List String) (d : Db) → Grows names d d
Grows-refl names d = record { kept = λ p m. m; fresh = λ p m. inl m }

Grows-trans :
    {names : List String} {c d e : Db} → Grows names c d → Grows names d e → Grows names c e
Grows-trans one two = record {
  kept = λ p m. two.kept p (one.kept p m);
  fresh = λ p m. elim (two.fresh p m) [ inl k ↦ one.fresh p k | inr f ↦ inr f ];
}

Grows-Has :
    {names : List String} {d e : Db} {name : String} → Grows names d e → Has d name → Has e name
Grows-Has grows (p, m, same) = (p, grows.kept p m, same)

placed :
    (names : List String) (name : String) (id : Uuid) (d e : Db) (b : Bool)
    → Memᴰ name names
    → any (has_name name) d.pipelines ≡ b
    → put_new b d (record d { pipelines = standard id name ∷ d.pipelines }) ≡ done tt e
    → Grows names d e × Has e name
placed names name id d e true member listed k =
    let (p, found, same) = found_any (has_name name) d.pipelines listed in
    subst (λ x. Grows names d x × Has x name) (done_db tt tt d e k)
      (Grows-refl names d, (p, found, (eq_iff p.name name).0 same))
placed names name id d e false member listed k =
    subst (λ x. Grows names d x × Has x name) (done_db tt tt _ e k)
      (
        record { kept = λ p m. Memᴰ.tail m; fresh = λ p m. new_or_old p m },
        (standard id name, Memᴰ.head refl, refl),
      )
  where
    new_or_old :
        (p : Pipeline)
        → Memᴰ p (standard id name ∷ d.pipelines)
        → Memᴰ p d.pipelines ⊎ IsFresh names p
    new_or_old p (Memᴰ.head same) =
        inr (ap (λ q. q.is_custom) same, subst (λ q. Memᴰ q.name names) (sym same) member)
    new_or_old p (Memᴰ.tail m) = inl m

insert_names_inv :
    (names new : List String) (w v : World)
    → ((name : String) → Memᴰ name new → Memᴰ name names)
    → insert_names new w ≡ (ok tt, v)
    → Grows names w.db v.db × ((name : String) → Memᴰ name new → Has v.db name)
unfolding insert_names
insert_names_inv names [] w v members h =
    let (_, same) = pure_inv tt tt w v h in
    (subst (λ x. Grows names w.db x.db) same (Grows-refl names w.db), λ name m. elim m [ ])
insert_names_inv names (name ∷ new) w v members h =
    let (_, w1, h1, k1) = then_inv _ _ w v tt h in
    let (one, here) =
      placed names name _ w.db w1.db _ (members name (Memᴰ.head refl)) refl
        (statement_inv (λ id db. insert_standard name id db) w w1 tt h1) in
    let (more, rest) = insert_names_inv names new w1 v (λ x m. members x (Memᴰ.tail m)) k1 in
    (
      Grows-trans one more,
      λ other m. elim (Memᴰ.cases_cons m) [
        | inl same ↦ subst (Has v.db) (sym same) (Grows-Has more here)
        | inr later ↦ rest other later
      ],
    )

-- When a worker's list, which is not empty, has replaced the standard pipelines, each pipeline of before
-- that is a custom one, is on the list or is used by a pass is still there; each pipeline that is there
-- is one of these or a standard one that the list names; and each name on the list has a pipeline.
pub replace_standard_pipelines_lem :
    (names : List String) (w v : World) (n : ℕ)
    → names ≢ []
    → replace_standard_pipelines names w ≡ (ok n, v)
    → ((p : Pipeline) → Memᴰ p w.db.pipelines → KeptFor names w.db.passes p → Memᴰ p v.db.pipelines)
      × ((p : Pipeline)
          → Memᴰ p v.db.pipelines
          → (Memᴰ p w.db.pipelines × KeptFor names w.db.passes p) ⊎ IsFresh names p)
      × ((name : String) → Memᴰ name names → Has v.db name)
unfolding replace_standard_pipelines
replace_standard_pipelines_lem [] w v n filled h = absurd (filled refl)
replace_standard_pipelines_lem (name ∷ names) w v n filled h =
    let all = name ∷ names in
    let stays = λ (p : Pipeline). not (is_withdrawn all w.db.passes p) in
    let (removed, w1, h1, k1) = bind_inv _ _ w v n h in
    let (_, w2, h2, k2) = then_inv _ _ w1 v n k1 in
    let (_, same) = pure_inv removed n w2 v k2 in
    let left = withdraw_inv all w w1 removed h1 in
    let (grown, listed) = insert_names_inv all all w1 w2 (λ x m. m) h2 in
    subst
      (λ x.
        ((p : Pipeline) → Memᴰ p w.db.pipelines → KeptFor all w.db.passes p → Memᴰ p x.db.pipelines)
        × ((p : Pipeline)
            → Memᴰ p x.db.pipelines
            → (Memᴰ p w.db.pipelines × KeptFor all w.db.passes p) ⊎ IsFresh all p)
        × ((name : String) → Memᴰ name all → Has x.db name))
      same
      (
        λ p m k. grown.kept p (
            subst (λ ps. Memᴰ p ps) left
              (where_in stays w.db.pipelines p m (not_withdrawn all w.db.passes p k))),
        λ p m. elim (grown.fresh p m) [
          | inl old ↦
              let (before, h) =
                in_where stays w.db.pipelines p (subst (λ ps. Memᴰ p ps) (sym left) old) in
              inl (before, kept_for all w.db.passes p h)
          | inr new ↦ inr new
        ],
        listed,
      )
