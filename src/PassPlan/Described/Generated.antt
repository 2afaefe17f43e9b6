-- ===== src/PassPlan/Described/Generated.antt =====
-- `Generate` of server/go/internal/passplan/generator.go, against what its plans should say.
use mathlib.Core.Path.{subst}
use project_dia.Prelude.{
  ℕ, String, true, ◌≡◌, refl, sym, ap, ◌∙◌, Option, none, some, List, [], ◌∷◌, ◌++◌, All, first,
  ◌==◌, ◌<◌, arith, Bool-cases, inl, inr,
}
use project_dia.Prelude.Int.{pos, ◌+ℤ◌, ◌≤ℤ◌}
use project_dia.Domain.{
  Uuid, TleRecord, Pass, RfBand, vhf, uhf, RecordingMode, raw, process, raw_and_process, approved,
}
use project_dia.Domain.Clock.Laws.{difference_lem, less_lem}
use project_dia.Domain.Clock.{max_duration}
use project_dia.Prediction.{PredictedPass}
use project_dia.Store.World.{World, Db, ok}
use project_dia.Store.World.Laws.{NoFaults}
use project_dia.PassPlan.Wire.{
  Machine, Generator, PassPlan, SatdumpPipeline, int32, band_to_proto, recording_mode_to_proto,
}
use project_dia.PassPlan.Generate.{is_track_of, generation_of, hash_of, generate}
use project_dia.PassPlan.Content.{IsTuned}
use project_dia.PassPlan.Radio.{apply_radio_overrides}
use project_dia.PassPlan.Total.{pipeline_in, radio_in, Inputs, plan_from, generate_total}
use project_dia.PassPlan.Described.{
  IsBand, is_vhf, is_uhf, no_band, IsMode, is_raw, is_process, is_both, no_mode, IsPipeline, no_row,
  row, Stored, search_of, IsNear, Picks, Describes, IsHashed,
}

track_first :
    (p : Pass) (c : PredictedPass) (before after : List PredictedPass)
    → All (λ x. ¬ (IsNear p x)) before
    → All (λ x. p.aos_at ≤ℤ x.aos +ℤ max_duration) before
    → is_track_of p c ≡ true
    → first (is_track_of p) (before ++ c ∷ after) ≡ some c
unfolding first
track_first p c [] after far range h = rw h refl
track_first p c (x ∷ before) after far range h =
    rw ((difference_lem x.aos p.aos_at range.0).1 far.0)
      (track_first p c before after far.1 range.1 h)

picked :
    (p : Pass) (cs : List PredictedPass) (c : PredictedPass)
    → Picks p cs c
    → first (is_track_of p) cs ≡ some c
picked p cs c k =
    ap (first (is_track_of p)) k.splits
    ∙ track_first p c k.before k.after k.others k.in_range
        ((difference_lem c.aos p.aos_at k.near_in_range).0 k.near)

wired_pipeline :
    (d : Db) (o : Option Uuid) (q : SatdumpPipeline) → IsPipeline d o q → pipeline_in d o ≡ some q
wired_pipeline d none _ no_row = refl
wired_pipeline d (some _) _ (row id p found) = elim (Bool-cases p.is_custom) [
  | inl e ↦ rw (found, e) refl
  | inr e ↦ rw (found, e) refl
]

-- The radio of a station for a pass that overrides nothing.
plain_radio :
    (m : Machine) (p : Pass) (d : Db) (i : Stored p d)
    → p.radio_settings ≡ []
    → radio_in m d i.station p ≡ record {
      source = "rtlsdr";
      frequency_hz = i.frequency;
      sample_rate_hz = i.sample_rate;
      gain_db = i.gain;
      ppm_correction = i.receiver.ppm_correction;
      bias_tee_enabled = i.receiver.bias_tee_enabled;
    }
unfolding apply_radio_overrides
plain_radio m p d i plain = elim i.has_gain [
  | inl h ↦ rw (plain, i.has_receiver, i.has_frequency, i.has_sample_rate, h) refl
  | inr (h, e) ↦ rw (plain, i.has_receiver, i.has_frequency, i.has_sample_rate, h, e) refl
]

number_lem : (n : ℕ) → n < 2147483648 → int32 n ≡ pos n
unfolding int32
number_lem n h = ground arith

-- The rows as the generator's own reading of them.
abbrev inputs_of :
    (g : Generator) (p : Pass) (d : Db) (i : Stored p d) (candidates : List PredictedPass)
    (candidate : PredictedPass)
    → p.radio_settings ≡ []
    → ((k : ℕ) → g.predictor k (search_of p i) ≡ some candidates)
    → Picks p candidates candidate
    → Inputs g p d
inputs_of g p d i candidates candidate plain predicts picks = record {
  satellite = i.satellite;
  station = i.station;
  elements = i.elements;
  worker = i.worker;
  pipeline = i.pipeline;
  config = i.config;
  candidates = candidates;
  candidate = candidate;
  has_satellite = i.has_satellite;
  has_station = i.has_station;
  has_elements = i.has_elements;
  has_worker = i.has_worker;
  has_pipeline = wired_pipeline d p.pipeline_id i.pipeline i.has_pipeline;
  has_config = i.has_config;
  is_tuned = subst IsTuned (sym (plain_radio g.machine p d i plain)) (i.tuned, i.sampled);
  predicts = predicts;
  matches = picked p candidates candidate picks;
}

band_lem : (b : RfBand) → IsBand b (band_to_proto b)
band_lem vhf = is_vhf
band_lem uhf = is_uhf
band_lem (RfBand.unknown s) = no_band s

mode_lem : (m : RecordingMode) → IsMode m (recording_mode_to_proto m)
mode_lem raw = is_raw
mode_lem process = is_process
mode_lem raw_and_process = is_both
mode_lem (RecordingMode.unknown s) = no_mode s

has_id-first :
    (id : ℕ) (rs : List TleRecord) (r : TleRecord) → first (λ x. x.id == id) rs ≡ some r → r.id ≡ id
unfolding first
has_id-first id [] r h = cc
has_id-first id (x ∷ xs) r h = ground (arith, has_id-first id xs r)

describes :
    (g : Generator) (p : Pass) (d : Db) (i : Stored p d) (candidates : List PredictedPass)
    (candidate : PredictedPass) (plain : p.radio_settings ≡ [])
    (predicts : (k : ℕ) → g.predictor k (search_of p i) ≡ some candidates)
    (picks : Picks p candidates candidate) (generation : String)
    → i.satellite.norad_id < 2147483648
    → pos 0 ≤ℤ p.recording_pre_roll
    → Describes p d i candidate.track
        (record (plan_from g p d (inputs_of g p d i candidates candidate plain predicts picks)) {
          generation = generation;
        })
describes g p d i candidates candidate plain predicts picks generation small ahead =
    let radio = plain_radio g.machine p d i plain in
    record {
      version = refl;
      same_pass = refl;
      same_station = refl;
      same_worker = refl;
      same_number = number_lem _ small;
      same_name = refl;
      same_line1 = refl;
      same_line2 = refl;
      same_epoch = refl;
      same_elements = has_id-first p.tle_record_id d.tle_records i.elements i.has_elements;
      same_aos = refl;
      same_los = refl;
      same_tca = refl;
      same_elevation = refl;
      starts = less_lem p.aos_at p.recording_pre_roll ahead;
      ends = refl;
      same_band = band_lem p.band;
      same_mode = mode_lem p.recording_mode;
      source = ap (λ r. r.source) radio;
      frequency = ap (λ r. r.frequency_hz) radio;
      sample_rate = ap (λ r. r.sample_rate_hz) radio;
      gain = ap (λ r. r.gain_db) radio;
      correction = ap (λ r. r.ppm_correction) radio;
      bias_tee = ap (λ r. r.bias_tee_enabled) radio;
      same_pipeline = refl;
      same_track = refl;
    }

-- While no statement fails, the generator returns a plan for every approved pass without settings of
-- its own for the radio and with a recording that starts at or before it, if the tables hold the
-- rows that it refers to, with a catalog number below 2^31 and a positive frequency and sample rate
-- of the station for its band, the predictor answers with a pass that starts within a minute of it,
-- and neither that one nor one before it in the answer starts more than 2^63 - 1 nanoseconds before
-- it, and each plan that describes the pass can be encoded. The plan then says of the pass, the
-- satellite, its orbital data, the worker, the radio and the pipeline what the tables say, carries the
-- track of the first such predicted pass, and its generation is the hash of the rest of it.
pub generate-Describes :
    (g : Generator) (p : Pass) (w : World) (i : Stored p w.db) (candidates : List PredictedPass)
    (candidate : PredictedPass)
    → NoFaults w
    → p.status ≡ approved
    → p.radio_settings ≡ []
    → pos 0 ≤ℤ p.recording_pre_roll
    → i.satellite.norad_id < 2147483648
    → ((k : ℕ) → g.predictor k (search_of p i) ≡ some candidates)
    → Picks p candidates candidate
    → ((q : PassPlan)
        → Describes p w.db i candidate.track q
        → (bytes : List ℕ) × (g.machine.marshal q ≡ some bytes))
    → (plan : PassPlan) × ((generate g p w).0 ≡ ok plan)
      × Describes p w.db i candidate.track plan
      × IsHashed g.machine plan
unfolding generation_of
generate-Describes g p w i candidates candidate n is_approved plain ahead small predicts picks can =
    let inputs = inputs_of g p w.db i candidates candidate plain predicts picks in
    let (bytes, encoded) =
      can (plan_from g p w.db inputs)
        (describes g p w.db i candidates candidate plain predicts picks "" small ahead) in
    let generation = g.machine.sha256_hex bytes in
    (
      record (plan_from g p w.db inputs) { generation = generation },
      generate_total g p w inputs generation n is_approved (ap (hash_of g.machine) encoded),
      describes g p w.db i candidates candidate plain predicts picks generation small ahead,
      record { undated = refl; bytes = bytes; encoded = encoded; hashed = refl },
    )
