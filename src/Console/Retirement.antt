-- ===== src/Console/Retirement.antt =====
-- The permanent retirement of a node (internal/console/retirement.go): what is read of the cluster,
-- and the outcome of a check. What the Kubernetes API and the snapshot file answer, and the
-- parsing of addresses, are parameters.
pub mod Check
pub mod Eligible
pub mod Safe
use nakama_agones.Prelude.{
  ℕ, String, Bool, true, false, Option, none, some, List, [], ◌==◌, number_Eq, text_Eq, ltb, length,
  ◌&&◌, ◌||◌, not, ◌∷◌, if◌then◌else◌,
}
use nakama_agones.Prelude.Table.{Table}
use nakama_agones.Prelude.Table.Distinct.{has_key}
use nakama_agones.Console.{SourceError}
use nakama_agones.Console.Values.{Json, Fields}

pub record Identity : Type 0 where
  pub name : String
  pub uid : String
  pub resource_version : String
  pub internal_ips : List String
  pub external_ips : List String

pub record RetirementCheck : Type 0 where
  pub eligible : Bool
  pub reason : String
  pub region : String
  pub identity : Identity

-- what a step of the check does: it goes on, it ends the check, or it returns an error
pub data Verdict (A : Type 0) : Type 0 where
  go : A → Verdict A
  stop : RetirementCheck → Verdict A
  fail : SourceError → Verdict A

infixl 5 ◌>>=◌
infixr 6 ◌>>◌
unfoldable pub ◌>>=◌ : {A B : Type 0} → Verdict A → (A → Verdict B) → Verdict B
go a >>= next = next a
stop c >>= next = stop c
fail e >>= next = fail e

abbrev pub ◌>>◌ : {B : Type 0} → Verdict (Unit {0}) → Verdict B → Verdict B
check >> rest = check >>= λ done. rest

pub record Labelled : Type 0 where
  pub kind : String
  pub value : String

pub record Node : Type 0 where
  pub name : String
  pub uid : String
  pub resource_version : String
  pub labels : Table String
  pub deletion_timestamp : String
  pub conditions : List Labelled
  pub addresses : List Labelled

-- the node names of the objects of a list, and the continuation token
pub record Listing : Type 0 where
  pub continue : String
  pub nodes : List String

pub record Reads : Type 0 where
  pub node : Verdict Node
  pub pods : Verdict Listing
  pub servers : Verdict Listing
  -- none if no file is configured
  pub snapshot : Option (Verdict Fields)

-- validRetirementIPs; `canonical` is net.ParseIP followed by String
module _ (canonical : String → Option String) where
  unfoldable pub is_canonical : String → Bool
  is_canonical ip = elim (canonical ip) [ none ↦ false | some s ↦ s == ip ]

  unfoldable pub valid_ips : List String → List String → Bool
  unfolding is_canonical
  valid_ips seen [] = true
  valid_ips seen (ip ∷ ips) = is_canonical ip && not (has_key ip seen) && valid_ips (ip ∷ seen) ips

  unfoldable pub valid_retirement_ips : List String → List String → String → Bool
  unfolding valid_ips
  valid_retirement_ips internal external confirmed =
      not (ltb 8 (length internal))
      && valid_ips [] internal
      && not (ltb 8 (length external))
      && valid_ips [] external
      && (has_key confirmed internal || has_key confirmed external)
