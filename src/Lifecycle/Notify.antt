-- ===== src/Lifecycle/Notify.antt =====
-- The transaction of notify of pkg/fleetmanager/lifecycle.go: the users of a room have been told of
-- its revision, unless it has changed since.
use nakama_agones.Prelude.{ℕ, String, ◌==◌, number_Eq, if◌then◌else◌}
use nakama_agones.State.{Allocation}
use nakama_agones.Manager.{Tx, update_allocation, on_allocation}

abbrev pub notified : ℕ → Allocation → Allocation
notified revision a = record a { notified_revision = revision }

abbrev pub notify_found : ℕ → Allocation → Tx → Tx
notify_found revision live tx =
    if live.revision == revision then update_allocation live.id (notified revision) tx else tx

unfoldable pub mark_notified : String → ℕ → Tx → Tx
mark_notified aid revision tx = on_allocation aid (notify_found revision) tx
