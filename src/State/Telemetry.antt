-- ===== src/State/Telemetry.antt =====
-- The metrics that a game server reports, and pkg/fleetmanager/timing.go: their validation.
use nakama_agones.Prelude.{
  Bool, true, false, not, ◌&&◌, ◌||◌, Option, none, some, [], ◌∷◌, ◌==◌, all, if◌then◌else◌,
}
use nakama_agones.Prelude.Int.{ℤ, pos, ltb_ℤ, leb_ℤ, integer_Eq}
use nakama_agones.Prelude.Float.{Float, whole, is_nan, is_inf, ltb_float, leb_float}

pub record LatencyWindow : Type 0 where
  pub window_seconds : ℤ
  pub count : ℤ
  pub p50 : Option Float
  pub p95 : Option Float
  pub p99 : Option Float
  pub max : Option Float
  pub last_sample_age_seconds : Option Float

pub record Metrics : Type 0 where
  pub server_last_ack_to_ready_ms : Option LatencyWindow
  pub server_last_ack_to_settlement_ms : Option LatencyWindow
  pub simulation_workers : Option ℤ
  pub audit_workers : Option ℤ
  pub client_presentation_to_ready_ms : Option LatencyWindow
  pub client_presentation_to_settlement_ms : Option LatencyWindow
  pub server_first_ack_to_ready_ms : Option LatencyWindow
  pub server_first_ack_to_settlement_ms : Option LatencyWindow
  pub simulation_queue_ms : Option LatencyWindow
  pub simulation_work_ms : Option LatencyWindow
  pub simulation_pending : ℤ
  pub simulation_active : ℤ
  pub simulation_oldest_seconds : Float
  pub frame_p99_ms : Float
  pub memory_bytes : ℤ
  pub audit_pending : ℤ
  pub audit_active : ℤ
  pub pending_results : ℤ

-- the metrics of a worker that has not reported
unfoldable pub no_metrics : Metrics
unfolding whole
no_metrics = record {
  server_last_ack_to_ready_ms = none;
  server_last_ack_to_settlement_ms = none;
  simulation_workers = none;
  audit_workers = none;
  client_presentation_to_ready_ms = none;
  client_presentation_to_settlement_ms = none;
  server_first_ack_to_ready_ms = none;
  server_first_ack_to_settlement_ms = none;
  simulation_queue_ms = none;
  simulation_work_ms = none;
  simulation_pending = pos 0;
  simulation_active = pos 0;
  simulation_oldest_seconds = whole 0;
  frame_p99_ms = whole 0;
  memory_bytes = pos 0;
  audit_pending = pos 0;
  audit_active = pos 0;
  pending_results = pos 0;
}

-- the body of the loop over SimulationWorkers and AuditWorkers
valid_workers : Option ℤ → Bool
valid_workers none = true
valid_workers (some n) = not (ltb_ℤ n (pos 1) || ltb_ℤ (pos 8) n)

-- the body of the loop over the five values of a window
valid_value : ℤ → Option Float → Bool
valid_value count none = count == pos 0
valid_value count (some v) =
    not (count == pos 0) && not (ltb_float v (whole 0) || is_nan v || is_inf v)

-- `*a > *b`, where both are known not to be nil
exceeds : Option Float → Option Float → Bool
exceeds (some a) (some b) = ltb_float b a
exceeds _ _ = false

unfoldable pub valid_window : LatencyWindow → Bool
unfolding valid_value exceeds
valid_window w =
    if not (w.window_seconds == pos 60) || ltb_ℤ w.count (pos 0) || ltb_ℤ (pos 100000) w.count
    then false
    else if not
        (all (valid_value w.count) (w.p50 ∷ w.p95 ∷ w.p99 ∷ w.max ∷ w.last_sample_age_seconds ∷ []))
    then false
    else not (
        ltb_ℤ (pos 0) w.count
        && (exceeds w.p50 w.p95
            || exceeds w.p95 w.p99
            || exceeds w.p99 w.max
            || exceeds w.last_sample_age_seconds (some (whole 60))))

unfoldable pub valid_optional_window : Option LatencyWindow → Bool
unfolding valid_window
valid_optional_window none = true
valid_optional_window (some w) = valid_window w

unfoldable pub valid_timing_metrics : Metrics → Bool
unfolding valid_workers valid_optional_window
valid_timing_metrics m =
    valid_workers m.simulation_workers
    && valid_workers m.audit_workers
    && all valid_optional_window (
        m.client_presentation_to_ready_ms ∷ m.client_presentation_to_settlement_ms
        ∷ m.server_first_ack_to_ready_ms ∷ m.server_first_ack_to_settlement_ms
        ∷ m.simulation_queue_ms ∷ m.simulation_work_ms ∷ m.server_last_ack_to_ready_ms
        ∷ m.server_last_ack_to_settlement_ms ∷ [])

unfoldable pub valid_metrics : Metrics → Bool
unfolding valid_timing_metrics
valid_metrics m =
    if not (valid_timing_metrics m)
    then false
    else leb_ℤ (pos 0) m.simulation_pending
      && leb_ℤ (pos 0) m.simulation_active
      && leb_ℤ (pos 0) m.audit_active
      && leb_ℤ (pos 0) m.audit_pending
      && leb_ℤ (pos 0) m.pending_results
      && leb_ℤ (pos 0) m.memory_bytes
      && leb_float (whole 0) m.simulation_oldest_seconds
      && not (is_nan m.simulation_oldest_seconds)
      && not (is_inf m.simulation_oldest_seconds)
      && leb_float (whole 0) m.frame_p99_ms
      && not (is_nan m.frame_p99_ms)
      && not (is_inf m.frame_p99_ms)

-- workFinished of manager.go
unfoldable pub work_finished : Metrics → Bool
work_finished m =
    m.simulation_active == pos 0
    && m.simulation_pending == pos 0
    && m.audit_active == pos 0
    && m.audit_pending == pos 0
    && m.pending_results == pos 0
