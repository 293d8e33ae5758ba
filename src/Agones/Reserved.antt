-- ===== src/Agones/Reserved.antt =====
-- The variables of the operator never replace those of the controller
-- (pkg/fleetmanager/lifecycle.go and pkg/fleetmanager/config.go).
use nakama_agones.Prelude.{
  ℕ, ◌+◌, ◌≤◌, ◌≡◌, refl, sym, ◌∙◌, String, true, false, [], ◌∷◌, length, arith, Bool-cases, inl,
  inr, ◌==◌, number_Eq, text_Eq, all, eq_iff,
}
use mathlib.Core.Path.{subst}
use nakama_agones.Prelude.Table.{Table, lookup, insert}
use nakama_agones.Prelude.Table.Laws.{lookup-insert}
use nakama_agones.State.{Worker}
use nakama_agones.Manager.{Manager}
use nakama_agones.Agones.Objects.{StartRequest, text_at, value_at, credentials_ok}
use nakama_agones.Agones.Variables.{
  upper_prefix, valid_variable, valid_server_environment, controller_variables, copy_variables,
  start_request,
}

module _ {V : Type 0} where
  length-insert-le : (k : String) (v : V) (m : Table V) → length (insert k v m) ≤ length m + 1
  unfolding insert
  length-insert-le k v [] = omega arith
  length-insert-le k v ((i, w) ∷ m) = ground (arith, length-insert-le k v m)

copy_variables-le :
    (values m : Table String) → length (copy_variables values m) ≤ length m + length values
unfolding copy_variables
copy_variables-le [] m = omega arith
copy_variables-le ((k, v) ∷ values) m =
    omega (arith, copy_variables-le values (insert k v m), length-insert-le k v m)

-- a name with the reserved prefix is not valid
reserved-other :
    (key name value : String)
    → upper_prefix "AGONES_" key ≡ true
    → valid_variable (name, value) ≡ true
    → (name == key) ≡ false
unfolding valid_variable
reserved-other key name value r v = elim (Bool-cases (name == key)) [
  | inr differs ↦ differs
  | inl same ↦
      let reserved : upper_prefix "AGONES_" name ≡ true =
        subst (λ n. upper_prefix "AGONES_" n ≡ true) (sym ((eq_iff name key).0 same)) r in
      absurd (ground arith)
]

copy_variables-reserved :
    (key : String) (values m : Table String)
    → upper_prefix "AGONES_" key ≡ true
    → all valid_variable values ≡ true
    → lookup key (copy_variables values m) ≡ lookup key m
unfolding copy_variables
copy_variables-reserved key [] m r v = refl
copy_variables-reserved key ((name, value) ∷ values) m r v =
    copy_variables-reserved key values (insert name value m) r (ground arith)
    ∙ ground (arith, lookup-insert name key value m, reserved-other key name value r (ground arith))

credentials-own :
    (req : StartRequest)
    → value_at "AGONES_FLEET_WORKER_ID" req.environment_variables
      ≡ text_at "worker_id" req.custom_data
    → value_at "AGONES_FLEET_BUILD_HASH" req.environment_variables
      ≡ text_at "build_hash" req.custom_data
    → (value_at "AGONES_FLEET_BOOTSTRAP_TOKEN" req.environment_variables == "") ≡ false
    → (value_at "AGONES_FLEET_ADMISSION_KEY" req.environment_variables == "") ≡ false
    → credentials_ok req ≡ true
unfolding credentials_ok
credentials-own req worker build token key = ground (
  arith,
  eq_iff (value_at "AGONES_FLEET_WORKER_ID" req.environment_variables)
      (text_at "worker_id" req.custom_data),
  eq_iff (value_at "AGONES_FLEET_BUILD_HASH" req.environment_variables)
      (text_at "build_hash" req.custom_data),
)

module _ (show : ℕ → String) (m : Manager) (w : Worker) where
  own : Table String
  own = controller_variables show m w

  -- what a start request promises to the client
  pub record Accepted : Type 0 where
    pub few : length (start_request show m w).environment_variables ≤ 80
    pub credentials : credentials_ok (start_request show m w) ≡ true
    pub controllers :
        (key : String)
        → upper_prefix "AGONES_" key ≡ true
        → lookup key (start_request show m w).environment_variables
          ≡ lookup key (controller_variables show m w)

  own_count : length own ≤ 8
  unfolding own controller_variables
  own_count = omega arith

  own_value :
      (key : String)
      → upper_prefix "AGONES_" key ≡ true
      → all valid_variable m.cfg.server_environment ≡ true
      → value_at key (copy_variables m.cfg.server_environment own) ≡ value_at key own
  unfolding value_at
  own_value key r v =
      rw (value_at, copy_variables-reserved key m.cfg.server_environment own r v) refl

  -- A worker's start request, made under a configuration whose server environment is valid, keeps
  -- every AGONES_ variable as the controller sets it, and passes the client's tests of the number
  -- of variables and of the credentials, if the two secrets encode to texts that are not empty.
  pub start_request-Accepted :
      (json_size : Table String → ℕ)
      → valid_server_environment json_size m.cfg.server_environment ≡ true
      → (value_at "AGONES_FLEET_BOOTSTRAP_TOKEN" (controller_variables show m w) == "") ≡ false
      → (value_at "AGONES_FLEET_ADMISSION_KEY" (controller_variables show m w) == "") ≡ false
      → Accepted
  unfolding start_request valid_server_environment text_at value_at own controller_variables lookup
  start_request-Accepted json_size valid token key =
      let names : all valid_variable m.cfg.server_environment ≡ true = ground arith in
      let bounded : length m.cfg.server_environment ≤ 64 = ground arith in
      record {
        few = omega (arith, copy_variables-le m.cfg.server_environment own, own_count, bounded);
        credentials =
            credentials-own (start_request show m w) (own_value "AGONES_FLEET_WORKER_ID" refl names)
              (own_value "AGONES_FLEET_BUILD_HASH" refl names)
              (rw (own_value "AGONES_FLEET_BOOTSTRAP_TOKEN" refl names) token)
              (rw (own_value "AGONES_FLEET_ADMISSION_KEY" refl names) key);
        controllers = λ k r. copy_variables-reserved k m.cfg.server_environment own r names;
      }
