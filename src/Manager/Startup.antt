-- ===== src/Manager/Startup.antt =====
-- The transaction of New of pkg/fleetmanager/manager.go: a controller joins the namespace of a fleet.
use nakama_agones.Prelude.{
  String, Bool, not, ◌&&◌, ◌||◌, some, any, ◌==◌, text_Eq, number_Eq, if◌then◌else◌, Result, ok,
  Error, ◌>>◌, refuse_if,
}
use nakama_agones.Prelude.Table.{values, map_values}
use nakama_agones.State.{Worker}
use nakama_agones.Manager.{Manager, Tx, with_workers}
use nakama_agones.Manager.Policy.{policy}

abbrev pub foreign : Manager → Worker → Bool
foreign m w = not (w.build_hash == m.cfg.build_hash) || not (w.region == m.cfg.region)

-- the body of the second loop over s.Workers
unfoldable pub adopt_policy : Manager → Worker → Worker
adopt_policy m w =
    if w.policy_revision == 0
    then record w {
      policy_revision = 1;
      cpu_request = m.cfg.cpu_request;
      cpu_limit = m.cfg.cpu_limit;
    }
    else w

-- `profile` is the fingerprint of the configuration, in hex
unfoldable pub attach : Manager → String → Tx → Result Tx
unfolding adopt_policy
attach m profile tx = do
  refuse_if (not (tx.profile == "") && not (tx.profile == profile)) Error.invalid
  refuse_if (any (foreign m) (values tx.workers)) Error.invalid
  ok (record (with_workers (map_values (adopt_policy m) tx.workers) tx) {
    state = record (with_workers (map_values (adopt_policy m) tx.workers) tx).state {
      capacity_policy = some (policy m tx.state);
      profile = profile;
    };
  })
