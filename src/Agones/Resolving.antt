-- ===== src/Agones/Resolving.antt =====
-- The identifier of an instance leads back to its game server (parseID and instance of
-- internal/agones/client.go).
use Prim.Native.Char.{Char, code}
use Prim.Native.String.{◌++◌ as text_append}
use Prim.Native.String.append
use mathlib.Core.Path.{subst}
use nakama_agones.Prelude.{
  ℕ, ◌≡◌, refl, sym, ◌∙◌, ap, String, Bool, true, false, not, ◌||◌, some, List, [], ◌∷◌, arith,
  ◌==◌, text_Eq, number_Eq, eq_iff,
}
use nakama_agones.Console.Names.{span, every_char}
use nakama_agones.Console.Auth.{cut_prefix}
use nakama_agones.Agones.{GameServer, Client}
use nakama_agones.Agones.Identifiers.{
  worker_id, resource_uid, game_name, instance_id, split_at, parse_id_parts, parse_id, alphanumeric,
}
use nakama_agones.Agones.Objects.{value_at, owned_game, owned_meta}

abbrev other_than_at : ℕ → Bool
other_than_at c = not (c == b'@')

every_char-map :
    (p q : ℕ → Bool)
    → ((c : ℕ) → p c ≡ true → q c ≡ true)
    → (s : String) → every_char p s ≡ true
    → every_char q s ≡ true
unfolding every_char
every_char-map p q imp String.[] h = refl
every_char-map p q imp (String.◌∷◌ c s) h = ground (arith, imp (code c), every_char-map p q imp s)

-- a text without the separator is one part
split_at-whole : (s : String) → every_char other_than_at s ≡ true → split_at s ≡ s ∷ []
unfolding split_at every_char
split_at-whole String.[] h = refl
split_at-whole (String.◌∷◌ c s) h =
    let rest = split_at-whole s (ground arith) in
    let other : (code c == b'@') ≡ false = ground arith in rw (rest, other) refl

split_at-cons :
    (c : Char) (s first : String) (rest : List String)
    → (code c == b'@') ≡ false
    → split_at s ≡ first ∷ rest
    → split_at (String.◌∷◌ c s) ≡ String.◌∷◌ c first ∷ rest
unfolding split_at
split_at-cons c s first rest other e = rw (e, split_at, other) refl

split_at-append :
    (s t : String)
    → every_char other_than_at s ≡ true
    → every_char other_than_at t ≡ true
    → split_at (text_append s (String.◌∷◌ "@" t)) ≡ s ∷ t ∷ []
unfolding split_at every_char
split_at-append String.[] t h k = rw (append.nil (String.◌∷◌ "@" t), split_at-whole t k) refl
split_at-append (String.◌∷◌ c s) t h k =
    ap split_at (append.cons c s (String.◌∷◌ "@" t))
    ∙ split_at-cons c (text_append s (String.◌∷◌ "@" t)) s (t ∷ []) (ground arith)
        (split_at-append s t (ground arith) k)

instance_id-split :
    (name uid : String)
    → every_char other_than_at name ≡ true
    → every_char other_than_at uid ≡ true
    → split_at (instance_id name uid) ≡ name ∷ uid ∷ []
unfolding instance_id
instance_id-split name uid h k =
    ap (λ t. split_at (text_append name t))
      (append.cons "@" "" uid ∙ ap (String.◌∷◌ "@") (append.nil uid))
    ∙ split_at-append name uid h k

-- the name of a game server
game_name-chars :
    (worker : String)
    → game_name worker ≡ String.◌∷◌ "n" (String.◌∷◌ "a" (String.◌∷◌ "g" (String.◌∷◌ "-" worker)))
unfolding game_name
game_name-chars worker =
    append.cons "n" "ag-" worker
    ∙ ap (String.◌∷◌ "n") (
        append.cons "a" "g-" worker
        ∙ ap (String.◌∷◌ "a") (
            append.cons "g" "-" worker
            ∙ ap (String.◌∷◌ "g")
                (append.cons "-" "" worker ∙ ap (String.◌∷◌ "-") (append.nil worker))))

cut-game_name : (worker : String) → cut_prefix "nag-" (game_name worker) ≡ some worker
unfolding game_name cut_prefix
cut-game_name worker = ap (cut_prefix "nag-") (game_name-chars worker)

worker_id-plain :
    (worker : String) → worker_id worker ≡ true → every_char other_than_at (game_name worker) ≡ true
unfolding worker_id every_char
worker_id-plain worker h =
    let plain =
      every_char-map (λ c. span b'a' b'f' c || span b'0' b'9' c) other_than_at (λ c p. ground arith)
        worker (ground arith) in
    ap (every_char other_than_at) (game_name-chars worker) ∙ plain

resource_uid-plain : (uid : String) → resource_uid uid ≡ true → every_char other_than_at uid ≡ true
unfolding resource_uid
resource_uid-plain uid h =
    every_char-map (λ c. alphanumeric c || c == b'-') other_than_at (λ c p. ground arith) uid
      (ground arith)

parse_id_parts-game :
    (worker uid : String)
    → worker_id worker ≡ true
    → resource_uid uid ≡ true
    → parse_id_parts (game_name worker ∷ uid ∷ []) ≡ some (game_name worker, uid)
unfolding parse_id_parts
parse_id_parts-game worker uid h k = rw (cut-game_name worker, parse_id_parts, h, k) refl

-- An instance that the client reports leads back to its game server: its identifier is the name
-- and the UID of that game server, and the client reads them back exactly.
pub instance_id-parse_id :
    (c : Client) (g : GameServer)
    → owned_game c g ≡ true
    → parse_id (instance_id g.metadata.name g.metadata.uid) ≡ some (g.metadata.name, g.metadata.uid)
unfolding parse_id owned_game owned_meta
instance_id-parse_id c g h =
    let worker = value_at "nakama-agones.io/worker" g.metadata.labels in
    let name : g.metadata.name ≡ game_name worker =
      (eq_iff g.metadata.name (game_name worker)).0 (ground arith) in
    let id : worker_id worker ≡ true = ground arith in
    let uid : resource_uid g.metadata.uid ≡ true = ground arith in
    (ap parse_id_parts (
        instance_id-split g.metadata.name g.metadata.uid
          (ap (every_char other_than_at) name ∙ worker_id-plain worker id)
          (resource_uid-plain g.metadata.uid uid))
      ∙ subst (λ n. parse_id_parts (n ∷ g.metadata.uid ∷ []) ≡ some (n, g.metadata.uid)) (sym name)
          (parse_id_parts-game worker g.metadata.uid id uid))
