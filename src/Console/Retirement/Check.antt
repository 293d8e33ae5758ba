-- ===== src/Console/Retirement/Check.antt =====
-- CheckNodeRetirement of internal/console/retirement.go.
use nakama_agones.Prelude.{
  ℕ, ◌+◌, String, Bool, true, false, not, ◌&&◌, ◌||◌, Option, none, some, List, [], ◌∷◌, length,
  ltb, ◌==◌, text_Eq, text_lt, number_Eq, if◌then◌else◌, sort,
}
use nakama_agones.Prelude.Table.{Table, lookup, bit}
use nakama_agones.Prelude.Table.Distinct.{has_key}
use nakama_agones.Console.{source_error}
use nakama_agones.Console.Names.{enrollment_label, enrollment_uid, enrollment_version, has_dots}
use nakama_agones.Console.Values.{Json, Items, Fields, at_key, text_field}
use nakama_agones.Console.Retirement.{
  Identity, RetirementCheck, Verdict, go, stop, fail, ◌>>=◌, ◌>>◌, Labelled, Node, Listing, Reads,
  is_canonical,
}

-- `if test { return reject(code) }`
unfoldable pub reject_if : RetirementCheck → String → Bool → Verdict (Unit {0})
reject_if result code true = stop (record result { reason = code })
reject_if result code false = go tt

-- m[key], "" where it is missing
unfoldable pub label : String → Table String → String
unfolding lookup
label key labels = elim (lookup key labels) [ none ↦ "" | some v ↦ v ]

abbrev pub has_label : String → Table String → Bool
has_label key labels = elim (lookup key labels) [ none ↦ false | some v ↦ true ]

-- the status of the last condition of that type, and how many there are
unfoldable pub condition_of : String → List Labelled → String → ℕ → String × ℕ
condition_of kind [] status count = (status, count)
condition_of kind (c ∷ cs) status count =
    condition_of kind cs (if c.kind == kind then c.value else status) (count + bit (c.kind == kind))

unfoldable pub terminal_worker : String → Bool
terminal_worker state = state == "stopped" || state == "lost" || state == "failed"

unfoldable pub terminal_room : String → Bool
terminal_room state =
    state == "completed" || state == "cancelled" || state == "failed" || state == "expired"

module _ (canonical : String → Option String) where
  -- the addresses of one kind, each once, in the order of the node
  unfoldable pub addresses_of : String → List Labelled → List String → List String
  unfolding is_canonical
  addresses_of kind [] found = found
  addresses_of kind (a ∷ rest) found = addresses_of kind rest (
      if is_canonical canonical a.value && a.kind == kind && not (has_key a.value found)
      then a.value ∷ found
      else found)

  unfoldable pub node_identity : Node → Identity
  unfolding addresses_of
  node_identity node = record {
    name = node.name;
    uid = node.uid;
    resource_version = node.resource_version;
    internal_ips = sort text_lt (addresses_of "InternalIP" node.addresses []);
    external_ips = sort text_lt (addresses_of "ExternalIP" node.addresses []);
  }

  empty_check : String → RetirementCheck
  empty_check region = record {
    eligible = false;
    reason = "";
    region = region;
    identity = record {
      name = "";
      uid = "";
      resource_version = "";
      internal_ips = [];
      external_ips = [];
    };
  }

  -- ips[host]
  unfoldable pub has_address : Identity → String → Bool
  has_address i host = has_key host i.internal_ips || has_key host i.external_ips

  unfoldable pub runs_on : RetirementCheck → Fields → Bool
  unfolding text_field has_address
  runs_on c w =
      has_address c.identity (text_field w "host") || text_field w "node" == c.identity.name

  -- the workers of the snapshot: the identifiers of those that the node runs
  unfoldable pub check_workers : RetirementCheck → Items → List String → Verdict (List String)
  unfolding text_field terminal_worker runs_on ◌>>=◌ reject_if
  check_workers c Items.no_items attached = go attached
  check_workers c (Items.item (Json.object w) rest) attached =
      let state = text_field w "state" in
      let host = text_field w "host" in
      let others = check_workers c rest attached in
      let with_this = check_workers c rest (text_field w "id" ∷ attached) in
      if not (text_field w "region" == c.region)
      then others
      else if runs_on c w
      then (reject_if c "node_has_processing_worker" (not (terminal_worker state)) >> with_this)
      else (reject_if c "worker_location_unavailable" (
            not (terminal_worker state) && (elim (canonical host) [ none ↦ true | some s ↦ false ]))
          >> others)
  check_workers c (Items.item v rest) attached =
      stop (record c { reason = "fleet_snapshot_invalid" })

  unfoldable pub check_snapshot_rooms : RetirementCheck → List String → Items → Verdict (Unit {0})
  unfolding text_field terminal_room ◌>>=◌ reject_if
  check_snapshot_rooms c attached Items.no_items = go tt
  check_snapshot_rooms c attached (Items.item (Json.object r) rest) =
      reject_if c "node_has_active_allocations"
        (has_key (text_field r "worker_id") attached && not (terminal_room (text_field r "state")))
      >> check_snapshot_rooms c attached rest
  check_snapshot_rooms c attached (Items.item v rest) =
      stop (record c { reason = "fleet_snapshot_invalid" })

  -- v.([]any)
  unfoldable pub items_of : RetirementCheck → Json → Verdict Items
  items_of c (Json.array l) = go l
  items_of c v = stop (record c { reason = "fleet_snapshot_invalid" })

  -- the snapshot of the fleet
  unfoldable pub check_fleet : RetirementCheck → Option (Verdict Fields) → Verdict (Unit {0})
  unfolding ◌>>=◌ items_of check_workers check_snapshot_rooms at_key
  check_fleet c none = stop (record c { reason = "fleet_snapshot_required" })
  check_fleet c (some file) = file >>= λ fleet. items_of c (at_key fleet "workers") >>= λ workers.
      items_of c (at_key fleet "rooms") >>= λ rooms.
      check_workers c workers [] >>= λ attached. check_snapshot_rooms c attached rooms

  -- a complete list without an object on the node
  unfoldable pub check_listing : RetirementCheck → String → Listing → Verdict (Unit {0})
  unfolding reject_if ◌>>=◌
  check_listing c code l =
      reject_if c "node_inventory_incomplete" (not (l.continue == ""))
      >> reject_if c code (has_key c.identity.name l.nodes)

  -- the node's labels and its readiness
  unfoldable pub check_node : RetirementCheck → String → Node → Verdict (Unit {0})
  unfolding lookup label condition_of
  check_node c cluster node =
      let ready = condition_of "Ready" node.conditions "" 0 in
      reject_if c "node_identity_unavailable" (
        (length c.identity.internal_ips == 0 && length c.identity.external_ips == 0)
        || ltb 8 (length c.identity.internal_ips)
        || ltb 8 (length c.identity.external_ips))
      >> reject_if c "control_node_protected" (
          has_label "node-role.kubernetes.io/control-plane" node.labels
          || has_label "node-role.kubernetes.io/master" node.labels)
      >> reject_if c "node_not_owned_worker" (
          not (label "nakama-agones.io/game-node" node.labels == "true")
          || not (label "nakama-agones.io/role" node.labels == "game")
          || not (label "nakama-agones.io/cluster" node.labels == cluster))
      >> reject_if c "node_still_ready" (ready.0 == "True")
      >> reject_if c "node_readiness_unknown"
          (not (ready.1 == 1) || (not (ready.0 == "False") && not (ready.0 == "Unknown")))

  -- whether the node that was read is the one asked for, and is not being deleted
  unfoldable pub check_identity : String → String → Node → Verdict (Unit {0})
  unfolding empty_check enrollment_uid enrollment_version
  check_identity region name node = reject_if (empty_check region) "node_identity_unavailable" (
      not (node.name == name)
      || not (enrollment_uid node.uid)
      || not (enrollment_version node.resource_version)
      || not (node.deletion_timestamp == ""))

  unfoldable pub with_identity : String → Node → RetirementCheck
  unfolding node_identity
  with_identity region node = record {
    eligible = false;
    reason = "";
    region = region;
    identity = node_identity node;
  }

  -- the fresh reads, in their order
  unfoldable pub check_reads : Reads → String → String → String → Verdict RetirementCheck
  unfolding with_identity
  check_reads reads region name cluster = reads.node >>= λ node.
      (check_identity region name node >> check_node (with_identity region node) cluster node)
      >>= λ checked. reads.pods >>= λ pods.
          check_listing (with_identity region node) "node_has_pods" pods >>= λ no_pods.
          reads.servers >>= λ servers.
          check_listing (with_identity region node) "node_has_gameservers" servers >>= λ no_servers.
          check_fleet (with_identity region node) reads.snapshot >>= λ fleet.
          go (record (with_identity region node) {
            eligible = true;
            reason = "eligible_permanent_retirement_requires_confirmation";
          })

  unfoldable pub check_node_retirement :
      List String → Reads → String → String → String → Verdict RetirementCheck
  unfolding enrollment_label has_dots
  check_node_retirement regions reads region name cluster =
      if not (has_key region regions) || not (enrollment_label name) || has_dots name
      then fail (source_error 400 "invalid_query")
      else check_reads reads region name cluster
