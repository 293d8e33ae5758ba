-- ===== src/Console/Retirement/Safe.antt =====
-- A node is eligible for retirement only if nothing runs on it (CheckNodeRetirement of
-- internal/console/retirement.go).
use mathlib.Core.Path.{subst}
use nakama_agones.Prelude.{
  ◌≡◌, sym, ap, String, true, false, not, ◌&&◌, ◌||◌, Option, none, some, List, [], arith,
  Bool-cases, inl, inr, ◌==◌, text_Eq, number_Eq, eq_iff,
}
use nakama_agones.Prelude.Table.Distinct.{has_key}
use nakama_agones.Console.Names.{enrollment_label, enrollment_uid, enrollment_version, has_dots}
use nakama_agones.Console.Values.{Items, Fields, Json, at_key}
use nakama_agones.Console.Retirement.{
  Identity, RetirementCheck, Verdict, go, stop, fail, ◌>>◌, Node, Listing, Reads,
}
use nakama_agones.Console.Retirement.Check.{
  label, has_label, condition_of, node_identity, check_workers, items_of, check_fleet,
  check_listing, check_node, check_identity, with_identity, check_reads, check_node_retirement,
}
use nakama_agones.Console.Retirement.Eligible.{
  >>=-go, rejected-not, reject_if-go, AllObjects, Ended, Over, Noted, workers-Noted, rooms-Over,
}

-- the node that was read is a worker of this cluster that is not ready
pub record NotReady (name cluster : String) (node : Node) : Type 0 where
  pub named : (node.name == name) ≡ true
  pub staying : (node.deletion_timestamp == "") ≡ true
  pub worker :
      (has_label "node-role.kubernetes.io/control-plane" node.labels ≡ false)
      × (has_label "node-role.kubernetes.io/master" node.labels ≡ false)
  pub owned :
      (label "nakama-agones.io/game-node" node.labels == "true") ≡ true
      × ((label "nakama-agones.io/cluster" node.labels == cluster) ≡ true)
  pub not_ready :
      ((condition_of "Ready" node.conditions "" 0).1 ≡ 1)
      × (((condition_of "Ready" node.conditions "" 0).0 == "False"
            || (condition_of "Ready" node.conditions "" 0).0 == "Unknown")
          ≡ true)

-- a list that is complete and has no object on the node
pub Empty : String → Verdict Listing → Type 0
Empty name read =
    (l : Listing) × (read ≡ go l) × ((l.continue == "") ≡ true) × (has_key name l.nodes ≡ false)

-- in the snapshot of the fleet, the workers on the node have ended and their rooms are over
pub record Vacant (canonical : String → Option String) (c : RetirementCheck)
    (file : Option (Verdict Fields)) : Type 0 where
  pub fleet : Fields
  pub read : file ≡ some (go fleet)
  pub workers : Items
  pub rooms : Items
  pub listed :
      (at_key fleet "workers" ≡ Json.array workers) × (at_key fleet "rooms" ≡ Json.array rooms)
  pub noted : List String
  pub ended : AllObjects (Ended canonical c noted) workers
  pub over : AllObjects (Over canonical c noted) rooms

module _ (name cluster : String) (node : Node) where
  -- the tests that do not end the check
  NotReady-tests :
      not (node.name == name)
          || not (enrollment_uid node.uid)
          || not (enrollment_version node.resource_version)
          || not (node.deletion_timestamp == "")
        ≡ false
      → has_label "node-role.kubernetes.io/control-plane" node.labels
          || has_label "node-role.kubernetes.io/master" node.labels
        ≡ false
      → not (label "nakama-agones.io/game-node" node.labels == "true")
          || not (label "nakama-agones.io/role" node.labels == "game")
          || not (label "nakama-agones.io/cluster" node.labels == cluster)
        ≡ false
      → ((condition_of "Ready" node.conditions "" 0).0 == "True") ≡ false
      → not ((condition_of "Ready" node.conditions "" 0).1 == 1)
          || (not ((condition_of "Ready" node.conditions "" 0).0 == "False")
              && not ((condition_of "Ready" node.conditions "" 0).0 == "Unknown"))
        ≡ false
      → NotReady name cluster node
  NotReady-tests identity control owner ready readiness = record {
    named = ground arith;
    staying = ground arith;
    worker = (ground arith, ground arith);
    owned = (ground arith, ground arith);
    not_ready = (ground arith, ground arith);
  }

module _ (canonical : String → Option String) where
  listing-Empty :
      (c : RetirementCheck) (code : String) (read : Verdict Listing) (l : Listing) (u : Unit {0})
      → read ≡ go l
      → check_listing canonical c code l ≡ go u
      → Empty c.identity.name read
  unfolding check_listing Empty
  listing-Empty c code read l u r e =
      let p = rejected-not c _ _ _ u e in
      (l, r, ground arith, reject_if-go c code (has_key c.identity.name l.nodes) u p.1)

  items_of-go :
      (c : RetirementCheck) (v : Json) (l : Items)
      → items_of canonical c v ≡ go l
      → v ≡ Json.array l
  unfolding items_of
  items_of-go c (Json.array k) l e = ap Json.array (cc e)
  items_of-go c Json.null l e = absurd (cc e)
  items_of-go c (Json.flag b) l e = absurd (cc e)
  items_of-go c (Json.numeral f) l e = absurd (cc e)
  items_of-go c (Json.string s) l e = absurd (cc e)
  items_of-go c (Json.object m) l e = absurd (cc e)

  fleet-Vacant :
      (c : RetirementCheck) (file : Option (Verdict Fields)) (u : Unit {0})
      → check_fleet canonical c file ≡ go u
      → Vacant canonical c file
  unfolding check_fleet Noted
  fleet-Vacant c none u e = absurd (cc e)
  fleet-Vacant c (some file) u e =
      let f = >>=-go file _ u e in
      let w = >>=-go (items_of canonical c (at_key f.0 "workers")) _ u f.2 in
      let r = >>=-go (items_of canonical c (at_key f.0 "rooms")) _ u w.2 in
      let a = >>=-go (check_workers canonical c w.0 []) _ u r.2 in
      record {
        fleet = f.0;
        read = ap some f.1;
        workers = w.0;
        rooms = r.0;
        listed = (items_of-go c _ w.0 w.1, items_of-go c _ r.0 r.1);
        noted = a.0;
        ended = (workers-Noted canonical c w.0 [] a.0 a.1).1;
        over = rooms-Over canonical c a.0 r.0 u a.2;
      }

  node-NotReady :
      (region name cluster : String) (node : Node) (u : Unit {0})
      → check_identity canonical region name node
          >> check_node canonical (with_identity canonical region node) cluster node
        ≡ go u
      → NotReady name cluster node
  unfolding check_identity check_node with_identity
  node-NotReady region name cluster node u e =
      let c = with_identity canonical region node in
      let identity = rejected-not _ _ _ _ u e in
      let addresses = rejected-not c _ _ _ u identity.1 in
      let control = rejected-not c _ _ _ u addresses.1 in
      let owner = rejected-not c _ _ _ u control.1 in
      let ready = rejected-not c _ _ _ u owner.1 in
      let readiness = reject_if-go c _ _ u ready.1 in
      NotReady-tests name cluster node identity.0 control.0 owner.0 ready.0 readiness

  -- The guards of the check have let the name of the node, its resources and the snapshot through.
  pub record Safe (regions : List String) (reads : Reads) (region name cluster : String)
      (c : RetirementCheck) : Type 0 where
    pub node : Node
    pub read : reads.node ≡ go node
    pub known : has_key region regions ≡ true
    pub identified : c.identity ≡ node_identity canonical node
    pub not_ready : NotReady name cluster node
    pub no_pods : Empty name reads.pods
    pub no_servers : Empty name reads.servers
    pub vacant : Vacant canonical (with_identity canonical region node) reads.snapshot

  listing-named :
      (region name cluster : String) (node : Node) (read : Verdict Listing)
      → NotReady name cluster node
      → Empty (with_identity canonical region node).identity.name read
      → Empty name read
  unfolding with_identity node_identity
  listing-named region name cluster node read ready e =
      subst (λ n. Empty n read) ((eq_iff node.name name).0 ready.named) e

query-good :
    (canonical : String → Option String) (regions : List String) (reads : Reads)
    (region name cluster : String) (c : RetirementCheck)
    → check_node_retirement canonical regions reads region name cluster ≡ go c
    → (has_key region regions ≡ true) × (check_reads canonical reads region name cluster ≡ go c)
unfolding check_node_retirement
query-good canonical regions reads region name cluster c e =
    elim (Bool-cases
      (not (has_key region regions) || not (enrollment_label name) || has_dots name)) [
        | inr good ↦ (ground arith, (rw good at e))
        | inl bad ↦ absurd (cc (bad, e))
      ]

identity_of : Identity → Verdict RetirementCheck → Identity
identity_of i (go c) = c.identity
identity_of i (stop c) = i
identity_of i (fail e) = i

found-identity :
    (canonical : String → Option String) (region : String) (node : Node) (c : RetirementCheck)
    → go (record (with_identity canonical region node) {
      eligible = true;
      reason = "eligible_permanent_retirement_requires_confirmation";
    })
      ≡ go c
    → c.identity ≡ node_identity canonical node
unfolding with_identity identity_of
found-identity canonical region node c e = sym (ap (identity_of (node_identity canonical node)) e)

-- If a node is found eligible for retirement, then what was read then says: it is the node that
-- was asked for, in a known region; it is not being deleted and not a control-plane node; it is
-- marked as a game node of this cluster; its one readiness condition is False or Unknown; the lists
-- of its pods and of the game servers are complete and have none on it; and in the snapshot of the
-- fleet every worker on it, by address or by name, has ended, and so has every room of these
-- workers.
pub check_node_retirement-Safe :
    (canonical : String → Option String) (regions : List String) (reads : Reads)
    (region name cluster : String) (c : RetirementCheck)
    → check_node_retirement canonical regions reads region name cluster ≡ go c
    → Safe canonical regions reads region name cluster c
unfolding check_reads
check_node_retirement-Safe canonical regions reads region name cluster c e =
    let q = query-good canonical regions reads region name cluster c e in
    let n = >>=-go reads.node _ c q.1 in
    let ready = >>=-go _ _ c n.2 in
    let pods = >>=-go reads.pods _ c ready.2 in
    let no_pods = >>=-go _ _ c pods.2 in
    let servers = >>=-go reads.servers _ c no_pods.2 in
    let no_servers = >>=-go _ _ c servers.2 in
    let fleet = >>=-go _ _ c no_servers.2 in
    let checked = node-NotReady canonical region name cluster n.0 ready.0 ready.1 in
    record {
      node = n.0;
      read = n.1;
      known = q.0;
      identified = found-identity canonical region n.0 c fleet.2;
      not_ready = checked;
      no_pods =
          listing-named canonical region name cluster n.0 reads.pods checked
            (listing-Empty canonical _ _ reads.pods pods.0 no_pods.0 pods.1 no_pods.1);
      no_servers =
          listing-named canonical region name cluster n.0 reads.servers checked (
            listing-Empty canonical _ _ reads.servers servers.0 no_servers.0 servers.1
              no_servers.1);
      vacant = fleet-Vacant canonical _ reads.snapshot fleet.0 fleet.1;
    }
