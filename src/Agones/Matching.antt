-- ===== src/Agones/Matching.antt =====
-- Whether a game server is the one that was wanted, and what the controller sees of it (sameGame
-- and instance of internal/agones/client.go).
use nakama_agones.Prelude.{
  String, Bool, true, false, not, ◌&&◌, ◌||◌, Option, none, some, List, [], ◌∷◌, ◌==◌, number_Eq,
  text_Eq, if◌then◌else◌,
}
use nakama_agones.Provider.{Any, Port, Instance, InstanceStatus}
use nakama_agones.Agones.{
  GamePort, Environment, Container, GameSpec, StatusPort, GameServer, Client,
}
use nakama_agones.Agones.Quantities.{same_quantities}
use nakama_agones.Agones.Identifiers.{instance_id}
use nakama_agones.Agones.Objects.{value_at, owned_game}

abbrev same_key : Option (String × String) → Option (String × String) → Bool
same_key none none = true
same_key (some a) (some b) = a.0 == b.0 && a.1 == b.1
same_key a b = false

unfoldable pub same_environment : List Environment → List Environment → Bool
same_environment [] [] = true
same_environment (a ∷ more) (b ∷ others) =
    a.name == b.name
    && a.value == b.value
    && same_key a.from_secret b.from_secret
    && same_environment more others
same_environment left right = false

unfoldable pub same_container : Container → Container → Bool
unfolding same_environment same_quantities
same_container g w =
    g.security_context == w.security_context
    && g.name == w.name
    && g.image == w.image
    && g.image_pull_policy == w.image_pull_policy
    && same_environment g.env w.env
    && same_quantities g.requests w.requests
    && same_quantities g.limits w.limits

unfoldable pub same_containers : List Container → List Container → Bool
unfolding same_container
same_containers (g ∷ []) (w ∷ ws) = same_container g w
same_containers gs ws = false

unfoldable pub same_ports : List GamePort → List GamePort → Bool
same_ports (g ∷ []) (w ∷ ws) =
    g.name == w.name
    && g.port_policy == w.port_policy
    && g.protocol == w.protocol
    && g.container_port == w.container_port
same_ports gs ws = false

unfoldable pub same_spec : GameSpec → GameSpec → Bool
unfolding same_ports same_containers
same_spec g w =
    g.container == w.container
    && same_ports g.ports w.ports
    && same_containers g.containers w.containers
    && g.termination_grace_period_seconds == w.termination_grace_period_seconds
    && not g.health.disabled
    && g.health.initial_delay_seconds == w.health.initial_delay_seconds
    && g.health.period_seconds == w.health.period_seconds
    && g.health.failure_threshold == w.health.failure_threshold
    && g.node_selector == w.node_selector
    && g.image_pull_secrets == w.image_pull_secrets

unfoldable pub same_game : Client → GameServer → GameServer → Bool
unfolding owned_game value_at same_spec
same_game c g want =
    owned_game c g
    && g.metadata.deletion_timestamp == ""
    && g.metadata.name == want.metadata.name
    && value_at "nakama-agones.io/config-hmac" g.metadata.annotations
      == value_at "nakama-agones.io/config-hmac" want.metadata.annotations
    && value_at "nakama-agones.io/build-hash" g.metadata.annotations
      == value_at "nakama-agones.io/build-hash" want.metadata.annotations
    && same_spec g.spec want.spec

unfoldable pub instance_status : GameServer → InstanceStatus
instance_status g =
    if not (g.metadata.deletion_timestamp == "")
    then InstanceStatus.unhealthy
    else if g.status.state == "Allocated"
    then InstanceStatus.running
    else if g.status.state == "Unhealthy"
        || g.status.state == "Error"
        || g.status.state == "Shutdown"
    then InstanceStatus.unhealthy
    else InstanceStatus.launching

unfoldable pub network_ports : Client → String → List StatusPort → List Port
network_ports c address [] = []
network_ports c address (p ∷ ps) =
    let rest = network_ports c address ps in
    if p.name == c.port_name
    then record {
      name = p.name;
      host = address;
      external_port = p.port;
      internal_port = c.game_port;
      protocol = "udp";
    }
      ∷ rest
    else rest

unfoldable pub make_instance : Client → GameServer → Instance
unfolding instance_status network_ports value_at instance_id
make_instance c g = record {
  instance_id = instance_id g.metadata.name g.metadata.uid;
  status = instance_status g;
  network_ports = elim (instance_status g) [
    | InstanceStatus.running ↦ network_ports c g.status.address g.status.ports
    | _ ↦ []
  ];
  custom_data =
      ("fleet_owner", Any.text c.deployment_id)
      ∷ ("worker_id", Any.text (value_at "nakama-agones.io/worker" g.metadata.labels))
      ∷ ("build_hash", Any.text (value_at "nakama-agones.io/build-hash" g.metadata.annotations))
      ∷ [];
  ttl = 0;
  started_at = "";
}
