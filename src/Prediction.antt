-- ===== src/Prediction.antt =====
-- server/go/internal/prediction/predict.go: the request as far as the program sets it, and a
-- predicted pass as far as the program reads it. The predictor is a service behind RPC.
use project_dia.Prelude.{List, String}
use project_dia.Domain.{Time, Duration, Float64}

pub record TrackPoint : Type 0 where
  pub at : Time
  pub azimuth_degrees : Float64
  pub elevation_degrees : Float64
  pub range_km : Float64

pub record PredictedPass : Type 0 where
  pub aos : Time
  pub tca : Time
  pub los : Time
  pub max_elevation_degrees : Float64
  pub track : List TrackPoint

pub record PredictionRequest : Type 0 where
  pub line1 : String
  pub line2 : String
  pub latitude_degrees : Float64
  pub longitude_degrees : Float64
  pub altitude_m : Float64
  pub minimum_elevation_degrees : Float64
  pub search_start : Time
  pub search_end : Time
  pub track_step : Duration
