-- ===== src/Manager/Admission.antt =====
-- `eligible` of pkg/fleetmanager/lifecycle.go: whether a worker can be given a room.
use nakama_agones.Prelude.{ℕ, ◌+◌, Bool, not, ◌&&◌, ◌||◌, ◌==◌, text_Eq, number_Eq, ltb}
use nakama_agones.Prelude.Float.{whole, leb_float}
use nakama_agones.State.{Worker}
use nakama_agones.State.Phases.{WorkerState, worker_state_Eq}
use nakama_agones.Manager.{Manager}

-- `now - t > d` over int64, with the subtraction moved to the other side
abbrev pub older_than : ℕ → ℕ → ℕ → Bool
older_than now t d = ltb (t + d) now

unfoldable pub eligible : Manager → ℕ → Worker → Bool
eligible m now w =
    w.state == WorkerState.ready
    && w.provider_ready
    && w.build_hash == m.cfg.build_hash
    && w.region == m.cfg.region
    && not w.draining
    && w.ready
    && not (w.host == "")
    && not (w.boot_id == "")
    && not (older_than now w.last_heartbeat m.cfg.heartbeat_timeout)
    && leb_float w.metrics.simulation_oldest_seconds m.cfg.max_queue_age_seconds
    && leb_float w.metrics.frame_p99_ms (whole 100)
    && (w.provider_expires_at == 0
        || ltb (now + m.cfg.min_lifetime_for_admission) w.provider_expires_at)
