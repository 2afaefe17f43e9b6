-- ===== src/PassPlan/Radio.antt =====
-- server/go/internal/passplan/generator.go: `radioFor`, `applyRadioOverrides` and `numeric`.
use project_dia.Prelude.{
  String, str_eq, Bool, false, Option, none, some, List, [], ◌∷◌, first, if◌then◌else◌,
}
use project_dia.Prelude.Int.{pos, leb_ℤ}
use project_dia.Domain.{
  Float64, Any, float, int, int64, boolean, text, Station, StationBandConfig, Pass, band_eq,
}
use project_dia.Errors.{station_not_configured}
use project_dia.Store.World.{Action, pure, refuse_if, ◌>>=◌, ◌>>◌}
use project_dia.Store.Reads.{get_station_band_configs}
use project_dia.PassPlan.Wire.{RadioSettings, Machine}

abbrev pub numeric : Machine → Any → Option Float64
numeric m (float x) = some x
numeric m (int n) = some (m.float_of_int n)
numeric m (int64 n) = some (m.float_of_int n)
numeric m _ = none

-- `overrides[key]`; a missing key gives `nil`, which has none of the types asked for.
abbrev pub value_at : String → List (String × Any) → Any
value_at key [] = Any.other
value_at key ((k, v) ∷ rest) = if str_eq k key then v else value_at key rest

abbrev pub as_bool : Any → Option Bool
as_bool (boolean b) = some b
as_bool _ = none

abbrev pub as_text : Any → Option String
as_text (text s) = if str_eq s "" then none else some s
as_text _ = none

-- `if value, ok := …; ok { radio.… = value }`
abbrev pub when_some {ℓ} :
    {A : Type ℓ} → Option A → (A → RadioSettings) → RadioSettings → RadioSettings
when_some none set radio = radio
when_some (some a) set radio = set a

unfoldable pub apply_radio_overrides : Machine → RadioSettings → List (String × Any) → RadioSettings
apply_radio_overrides m r0 overrides =
    let r1 =
      when_some (numeric m (value_at "frequency_hz" overrides))
        (λ x. record r0 { frequency_hz = m.int64_of_float x }) r0 in
    let r2 =
      when_some (numeric m (value_at "sample_rate_hz" overrides))
        (λ x. record r1 { sample_rate_hz = m.int64_of_float x }) r1 in
    let r3 =
      when_some (numeric m (value_at "gain_db" overrides)) (λ x. record r2 { gain_db = x }) r2 in
    let r4 =
      when_some (numeric m (value_at "ppm_correction" overrides))
        (λ x. record r3 { ppm_correction = m.int32_of_float x }) r3 in
    let r5 =
      when_some (as_bool (value_at "bias_tee_enabled" overrides))
        (λ b. record r4 { bias_tee_enabled = b }) r4 in
    when_some (as_text (value_at "source" overrides)) (λ s. record r5 { source = s }) r5

abbrev pub rtlsdr : RadioSettings
rtlsdr = record {
  source = "rtlsdr";
  frequency_hz = pos 0;
  sample_rate_hz = pos 0;
  gain_db = 0;
  ppm_correction = pos 0;
  bias_tee_enabled = false;
}

abbrev pub or_else {ℓ} : {A : Type ℓ} → Option A → A → A
or_else none a = a
or_else (some b) a = b

-- The loop over the configurations: the first of the band counts.
abbrev pub station_radio : Option StationBandConfig → RadioSettings
station_radio none = rtlsdr
station_radio (some c) = record {
  source = "rtlsdr";
  frequency_hz = or_else c.center_frequency_hz (pos 0);
  sample_rate_hz = or_else c.sample_rate_hz (pos 0);
  gain_db = or_else c.gain_db 0;
  ppm_correction = c.ppm_correction;
  bias_tee_enabled = c.bias_tee_enabled;
}

unfoldable pub radio_for : Machine → Station → Pass → Action RadioSettings
radio_for m station pass = do
  configs ← get_station_band_configs station.id
  let chosen = station_radio (first (λ c. band_eq c.band pass.band) configs)
  let radio = apply_radio_overrides m chosen pass.radio_settings
  refuse_if (leb_ℤ radio.frequency_hz (pos 0)) station_not_configured
  refuse_if (leb_ℤ radio.sample_rate_hz (pos 0)) station_not_configured
  pure radio
