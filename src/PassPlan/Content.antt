-- ===== src/PassPlan/Content.antt =====
-- The plans that server/go/internal/passplan/generator.go returns.
use project_dia.Prelude.{
  ◌≡◌, refl, sym, ap, not, false, Option, none, some, arith, Bool-cases, inl, inr,
}
use project_dia.Prelude.Int.{ℤ, pos, ◌<ℤ◌, ◌+ℤ◌, leb_ℤ}
use project_dia.Domain.{Uuid, Station, Pass, approved, status_eq}
use project_dia.Domain.Clock.{negate}
use project_dia.Store.World.{World, Pipeline, ok}
use project_dia.Store.World.Returns.{
  Returns, Returns-pure, Returns-bind, Returns-require, Returns-unless, Returns-any,
  Returns-query_row,
}
use project_dia.Store.Reads.{get_pipeline_by_id, selected_row, selected}
use project_dia.PassPlan.Wire.{Machine, Generator, PassPlan, RadioSettings, SatdumpPipeline}
use project_dia.PassPlan.Radio.{radio_for}
use project_dia.PassPlan.Generate.{pipeline_of, wire_pipeline, generation_of, generate}

-- A radio that is tuned and sampled.
abbrev pub IsTuned : RadioSettings → Type 0
IsTuned r = (pos 0 <ℤ r.frequency_hz) × (pos 0 <ℤ r.sample_rate_hz)

-- What a worker relies on: the plan is that of an approved pass and names it, the radio is set, the
-- generation is the hash of the rest of the plan.
pub record Executable (m : Machine) (pass : Pass) (plan : PassPlan) : Type 0 where
  pub is_approved : pass.status ≡ approved
  pub same_pass : plan.pass_id ≡ pass.id
  pub same_station : plan.station_id ≡ pass.station_id
  pub tuned : IsTuned plan.radio
  pub starts : plan.recording_start ≡ pass.aos_at +ℤ negate pass.recording_pre_roll
  pub ends : plan.recording_end ≡ pass.los_at +ℤ pass.recording_post_roll
  pub hashed : generation_of m plan ≡ some plan.generation

approved_of : (p : Pass) → not (status_eq p.status approved) ≡ false → p.status ≡ approved
unfolding status_eq
approved_of p h = ground arith

positive : (z : ℤ) → leb_ℤ z (pos 0) ≡ false → pos 0 <ℤ z
positive z h = ground arith

radio_for-Returns : (m : Machine) (s : Station) (p : Pass) → Returns IsTuned (radio_for m s p)
unfolding radio_for
radio_for-Returns m s p = Returns-bind _ _ (Returns-any _) λ configs _.
    Returns-unless _ _ _ λ f. Returns-unless _ _ _ λ r. Returns-pure _ (positive _ f, positive _ r)

generate-Returns : (g : Generator) (p : Pass) → Returns (Executable g.machine p) (generate g p)
unfolding generate generation_of
generate-Returns g p = Returns-unless _ _ _ λ a. Returns-bind _ _ (Returns-any _) λ satellite _.
    Returns-bind _ _ (Returns-any _) λ station _. Returns-bind _ _ (Returns-any _) λ elements _.
      Returns-bind _ _ (Returns-any _) λ worker _.
        Returns-bind _ _ (radio_for-Returns g.machine station p) λ radio tuned.
          Returns-bind _ _ (Returns-any _) λ pipeline _. Returns-bind _ _ (Returns-any _) λ track _.
            Returns-bind _ _ (Returns-require _ _ (λ generation eq. eq)) λ generation eq.
              Returns-pure _ (record {
                is_approved = approved_of p a;
                same_pass = refl;
                same_station = refl;
                tuned = tuned;
                starts = refl;
                ends = refl;
                hashed = eq;
              })

-- Every plan that the generator returns is executable: it belongs to an approved pass, its radio has
-- a positive frequency and a positive sample rate, its recording runs from the pass's start less the
-- pre-roll to its end plus the post-roll, and its generation is the hash of its content.
pub generate-Executable :
    (g : Generator) (pass : Pass) (w v : World) (plan : PassPlan)
    → generate g pass w ≡ (ok plan, v)
    → Executable g.machine pass plan
generate-Executable g pass w v plan h = (generate-Returns g pass).at w v plan h

selected_row-definition :
    (o : Option Pipeline) (p : Pipeline) → selected_row o ≡ some p → p.definition ≡ ""
selected_row-definition none p h = cc
selected_row-definition (some q) p h =
    let same : selected q ≡ p = cc in sym (ap (λ r. r.definition) same)

wire_pipeline-definition :
    (p : Pipeline) → p.definition ≡ "" → (wire_pipeline p).definition_json ≡ ""
wire_pipeline-definition p h = elim (Bool-cases p.is_custom) [
  | inl e ↦ rw (e, h) refl
  | inr e ↦ rw e refl
]

abbrev NoDefinition : SatdumpPipeline → Type 0
NoDefinition p = p.definition_json ≡ ""

pipeline_of-Returns : (o : Option Uuid) → Returns NoDefinition (pipeline_of o)
unfolding pipeline_of get_pipeline_by_id
pipeline_of-Returns none = Returns-pure _ refl
pipeline_of-Returns (some id) =
    Returns-bind _ _ (Returns-query_row _ λ d p h. selected_row-definition _ p h)
      λ p h. Returns-pure _ (wire_pipeline-definition p h)

undefined-Returns :
    (g : Generator) (p : Pass) → Returns (λ plan. NoDefinition plan.pipeline) (generate g p)
unfolding generate
undefined-Returns g p = Returns-unless _ _ _ λ a. Returns-bind _ _ (Returns-any _) λ satellite _.
    Returns-bind _ _ (Returns-any _) λ station _. Returns-bind _ _ (Returns-any _) λ elements _.
      Returns-bind _ _ (Returns-any _) λ worker _. Returns-bind _ _ (Returns-any _) λ radio _.
        Returns-bind _ _ (pipeline_of-Returns p.pipeline_id) λ pipeline undefined.
          Returns-bind _ _ (Returns-any _)
            λ track _. Returns-bind _ _ (Returns-any _) λ generation _. Returns-pure _ undefined

-- No plan carries the definition of its pipeline, not even one of a custom pipeline: the query of
-- the pipeline does not read it.
pub generate-NoDefinition :
    (g : Generator) (pass : Pass) (w v : World) (plan : PassPlan)
    → generate g pass w ≡ (ok plan, v)
    → plan.pipeline.definition_json ≡ ""
generate-NoDefinition g pass w v plan h = (undefined-Returns g pass).at w v plan h
