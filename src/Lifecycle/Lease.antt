-- ===== src/Lifecycle/Lease.antt =====
-- The control lease of pkg/fleetmanager/lifecycle.go: one controller at a time drives the fleet.
use nakama_agones.Prelude.{
  ℕ, ◌+◌, not, ◌&&◌, ◌||◌, ◌==◌, text_Eq, ltb, leb, if◌then◌else◌, Result, Error, ◌>>◌, refuse_if,
  ok,
}
use nakama_agones.Manager.{Manager, Tx}

abbrev pub hold : Manager → ℕ → Tx → Tx
hold m now tx = record tx { state = record tx.state { leader = m.owner; lease_until = now + 30 } }

-- the beginning of Tick's transaction
unfoldable pub take_lease : Manager → ℕ → Tx → Result Tx
take_lease m now tx = do
  refuse_if (not (tx.leader == m.owner) && ltb now tx.lease_until) Error.lease
  ok (hold m now tx)

-- the test that start, renewLease and stop make: the lease is this controller's and runs
unfoldable pub check_lease : Manager → ℕ → Tx → Result (Unit {0})
check_lease m now tx = refuse_if (not (tx.leader == m.owner) || leb tx.lease_until now) Error.lease

unfoldable pub renew_lease : Manager → ℕ → Tx → Result Tx
unfolding check_lease
renew_lease m now tx = do
  check_lease m now tx
  ok (record tx { state = record tx.state { lease_until = now + 30 } })

-- what Run does when it is told to end
unfoldable pub release_lease : Manager → Tx → Tx
release_lease m tx =
    if tx.leader == m.owner then record tx { state = record tx.state { lease_until = 0 } } else tx
