-- ===== src/Lifecycle/Exclusion.antt =====
-- What the lease and the test before a stop rule out (pkg/fleetmanager/lifecycle.go).
use nakama_agones.Prelude.{
  ℕ, ◌+◌, ◌≤◌, ◌<◌, ◌≡◌, ◌≢◌, refl, String, true, false, not, ◌&&◌, ◌||◌, some, arith, ◌==◌,
  text_Eq, eq_iff, ltb, leb, ok, err, Error, Returns, Returns-ok, Returns-refuse_if,
  Returns-or_fail, ◌>>=◌, refuse_if,
}
use nakama_agones.Prelude.Table.{lookup}
use nakama_agones.State.{Worker, occupied}
use nakama_agones.State.Phases.{WorkerState, worker_state_Eq, worker_state_eq_iff}
use nakama_agones.State.Telemetry.{work_finished}
use nakama_agones.Manager.{Manager, Tx}
use nakama_agones.Lifecycle.{tick_update}
use nakama_agones.Lifecycle.Holding.{Leased, tick_update-Leased}
use nakama_agones.Lifecycle.Lease.{take_lease, check_lease, renew_lease}
use nakama_agones.Lifecycle.Instances.{start_begin}
use nakama_agones.Lifecycle.Stop.{still_serving, stop_check}

-- What a controller can do at `later`, when another holds the lease.
pub record ShutOut (o : Manager) (later : ℕ) (t : Tx) : Type 0 where
  pub no_tick : tick_update o later t ≡ err Error.lease
  pub no_renewal : renew_lease o later t ≡ err Error.lease
  pub no_start : (wid : String) → start_begin o later wid t ≡ err Error.lease
  pub no_stop : (w : Worker) → stop_check o later w t ≡ err Error.lease

-- When the transaction of a controller's tick has succeeded, then in the state that it commits, and
-- until 30 seconds after the tick's time, every transaction that needs the lease fails for another
-- controller: its own tick, its renewal, its start of an instance and its test before a stop. (When
-- the holder is told to end, a transaction of its own gives the lease up.)
pub tick_update-ShutOut :
    (m o : Manager) (now later : ℕ) (tx t : Tx)
    → m.owner ≢ o.owner
    → tick_update m now tx ≡ ok t
    → later < now + 30
    → ShutOut o later t
unfolding take_lease check_lease renew_lease start_begin stop_check tick_update ◌>>=◌ refuse_if
tick_update-ShutOut m o now later tx t other e early = record {
  no_tick = rw shut refl;
  no_renewal = rw foreign refl;
  no_start = λ wid. rw foreign refl;
  no_stop = λ w. rw foreign refl;
}
  where
    held : Leased m.owner (now + 30) t
    held = (tick_update-Leased m now tx).at t e

    differ : (t.leader == o.owner) ≡ false
    differ = ground (arith, eq_iff t.leader o.owner, held.led, other)

    shut : (not (t.leader == o.owner) && ltb later t.lease_until) ≡ true
    shut = ground (arith, differ, held.lasts)

    foreign : (not (t.leader == o.owner) || leb t.lease_until later) ≡ true
    foreign = ground (arith, differ)

-- The state in which the provider is told to stop the worker `w`.
pub record MayStop (m : Manager) (now : ℕ) (w current : Worker) (t : Tx) : Type 0 where
  pub leads : t.leader ≡ m.owner
  pub in_time : now < t.lease_until
  pub stored : lookup w.id t.workers ≡ some current
  pub stopping : current.state ≡ WorkerState.stopping
  pub same_instance : current.provider_id ≡ w.provider_id
  pub acknowledged : current.draining ≡ true → current.drain_ack ≡ true
  pub no_rooms : current.draining ≡ true → occupied t.state current.id ≡ 0
  pub no_players : current.draining ≡ true → current.player_count ≡ 0
  pub no_work : current.draining ≡ true → work_finished current.metrics ≡ true
  pub heard_of : current.draining ≡ true → now ≤ current.last_heartbeat + m.cfg.heartbeat_timeout

-- The test that precedes the call of the provider's Stop passes only for the holder of the lease,
-- on a worker that is stopping with the same instance; if the worker was drained, only once it has
-- acknowledged the drain, has no unfinished room, no player and no work left, and was heard of
-- within the heartbeat timeout. The test changes nothing.
pub stop_check-MayStop :
    (m : Manager) (now : ℕ) (w : Worker) (tx : Tx)
    → Returns
        (λ t. (t ≡ tx) × ((current : Worker) × MayStop m now w current t))
        (stop_check m now w tx)
unfolding stop_check check_lease still_serving
stop_check-MayStop m now w tx = Returns-refuse_if _ _ _ _ λ leased.
    Returns-or_fail _ _ _ _ λ current e. Returns-refuse_if _ _ _ _ λ same.
      Returns-refuse_if _ _ _ _ λ idle. Returns-ok _ _ (
        refl,
        (
          current,
          record {
            leads = (eq_iff tx.leader m.owner).0 (ground arith);
            in_time = ground arith;
            stored = e;
            stopping = (worker_state_eq_iff current.state WorkerState.stopping).0 (ground arith);
            same_instance = (eq_iff current.provider_id w.provider_id).0 (ground arith);
            acknowledged = λ d. ground arith;
            no_rooms = λ d. ground arith;
            no_players = λ d. ground arith;
            no_work = λ d. ground arith;
            heard_of = λ d. ground arith;
          },
        ),
      )
