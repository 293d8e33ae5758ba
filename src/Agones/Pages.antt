-- ===== src/Agones/Pages.antt =====
-- What List returns (internal/agones/client.go).
use Prim.Native.String.{len}
use mathlib.Core.Path.{subst}
use nakama_agones.Prelude.{
  ℕ, zero, suc, ◌+◌, ◌≤◌, ◌≡◌, refl, ◌∙◌, String, true, false, not, ◌||◌, List, [], ◌∷◌, ◌++◌, ltb,
  arith, Bool-cases, Option-cases, inl, inr, ◌==◌, text_Eq, number_Eq, for_each, for_each_inv,
  eq_iff,
}
use nakama_agones.Prelude.Table.Laws.{All}
use nakama_agones.Prelude.Table.Distinct.{has_key, Distinct}
use nakama_agones.Provider.{Instance}
use nakama_agones.Agones.{GameServer, Client}
use nakama_agones.Agones.Requests.{Attempt, Attempt-cases, ok, err, Method, request}
use nakama_agones.Agones.Identifiers.{instance_id}
use nakama_agones.Agones.Objects.{owned_game}
use nakama_agones.Agones.Matching.{make_instance}
use nakama_agones.Agones.Calls.{Server, sending}
use nakama_agones.Agones.Listing.{Found, add_instance, list_from, list_instances}

abbrev pub ids : List Instance → List String
ids [] = []
ids (i ∷ is) = i.instance_id ∷ ids is

has_key-snoc :
    (k : String) (is : List Instance) (i : Instance)
    → has_key k (ids (is ++ i ∷ [])) ≡ (has_key k (ids is) || i.instance_id == k)
has_key-snoc k [] i = ground arith
has_key-snoc k (j ∷ is) i = ground (arith, has_key-snoc k is i)

snoc-Distinct :
    (is : List Instance) (i : Instance)
    → has_key i.instance_id (ids is) ≡ false
    → Distinct (ids is)
    → Distinct (ids (is ++ i ∷ []))
snoc-Distinct [] i h d = (refl, tt)
snoc-Distinct (j ∷ is) i h d = (
  ground (
    arith,
    has_key-snoc j.instance_id is i,
    eq_iff j.instance_id i.instance_id,
    eq_iff i.instance_id j.instance_id,
    d.0,
  ),
  snoc-Distinct is i (ground arith) d.1,
)

All-snoc :
    (P : Instance → Type 0) (is : List Instance) (i : Instance)
    → All P is
    → P i
    → All P (is ++ i ∷ [])
All-snoc P [] i h p = (p, tt)
All-snoc P (j ∷ is) i h p = (h.0, All-snoc P is i h.1 p)

module _ (c : Client) where
  -- what the controller sees of a game server of this deployment
  pub Ours : Instance → Type 0
  Ours i = (g : GameServer) × (owned_game c g ≡ true) × (i ≡ make_instance c g)

  record Listed (f : Found) : Type 0 where
    ours : All Ours f.instances
    distinct : Distinct (ids f.instances)
    known : (k : String) → has_key k (ids f.instances) ≡ has_key k f.seen

  add_instance-Listed : (g : GameServer) (f : Found) → Listed f → Listed (add_instance c g f)
  unfolding add_instance Ours make_instance
  add_instance-Listed g f h =
      let id = instance_id g.metadata.name g.metadata.uid in
      elim (Bool-cases (not (owned_game c g) || has_key id f.seen)) [
        | inl skip ↦ rw skip h
        | inr fresh ↦ rw fresh (record {
          ours = All-snoc Ours f.instances (make_instance c g) h.ours (g, ground arith, refl);
          distinct =
              snoc-Distinct f.instances (make_instance c g) (h.known id ∙ ground arith) h.distinct;
          known = λ k. ground (arith, has_key-snoc k f.instances (make_instance c g), h.known k);
        })
      ]

  -- a list without duplicates of this deployment's instances
  pub record Inventory (l : List Instance) : Type 0 where
    pub ours : All Ours l
    pub distinct : Distinct (ids l)

  ListedIfOk : Attempt (List Instance) → Type 0
  ListedIfOk (ok l) = Inventory l
  ListedIfOk (err e) = Unit

  module _ (server : Server) where
    list_from-Listed :
        (pages : ℕ) (cursor : String) (cursors : List String) (f : Found) (s : server.State)
        → Listed f
        → ListedIfOk (list_from c server pages cursor cursors f s).0
    unfolding ListedIfOk list_from
    list_from-Listed zero cursor cursors f s h = tt
    list_from-Listed (suc pages) cursor cursors f s h =
        let r = sending (request "list" Method.get) (server.list_games cursor) s in
        elim (Attempt-cases r.0) [
          | inl (e, failed) ↦ rw (failed, list_from) tt
          | inr (page, there) ↦ elim (Option-cases page.items) [
            | inl none_ ↦ rw (there, list_from, none_) tt
            | inr (games, some_) ↦
                let g = for_each (add_instance c) games f in
                let k = for_each_inv Listed (add_instance c) add_instance-Listed games f h in
                elim (Bool-cases (page.continue == "")) [
                  | inl last ↦
                      rw (there, list_from, some_, last)
                        (record { ours = k.ours; distinct = k.distinct })
                  | inr more ↦
                      elim (Bool-cases
                        (has_key page.continue cursors || ltb 4096 (len page.continue))) [
                          | inl bad ↦ rw (there, list_from, some_, more, bad) tt
                          | inr good ↦
                              rw (there, list_from, some_, more, good)
                                (list_from-Listed pages page.continue (page.continue ∷ cursors) g
                                  r.1 k)
                        ]
                ]
          ]
        ]

-- a property of the number of pages asked for so far and of the API server's state
abbrev pub Counts : (server : Server) → (ℕ → server.State → Type 0) → Type 0
Counts server P =
    (n : ℕ) (cursor : String) (t : server.State) → P n t → P (n + 1) (server.list_games cursor t).1

-- the same at the end of a list
abbrev pub CountedTo : {S : Type 0} → (ℕ → S → Type 0) → ℕ → S → Type 0
CountedTo P most t = (n : ℕ) × (n ≤ most) × P n t

module _ (c : Client) (server : Server) (P : ℕ → server.State → Type 0)
    (counts : Counts server P) where
  list_from-CountedTo :
      (pages : ℕ) (cursor : String) (cursors : List String) (f : Found) (n : ℕ) (s : server.State)
      → P n s
      → CountedTo P (n + pages) (list_from c server pages cursor cursors f s).1
  unfolding list_from sending
  list_from-CountedTo zero cursor cursors f n s p = (n, omega arith, p)
  list_from-CountedTo (suc pages) cursor cursors f n s p =
      let r = sending (request "list" Method.get) (server.list_games cursor) s in
      let q : P (n + 1) r.1 = counts n cursor s p in
      let done : CountedTo P (n + suc pages) r.1 = (n + 1, omega arith, q) in
      elim (Attempt-cases r.0) [
        | inl (e, failed) ↦ rw (failed, list_from) done
        | inr (page, there) ↦ elim (Option-cases page.items) [
          | inl none_ ↦ rw (there, list_from, none_) done
          | inr (games, some_) ↦
              let g = for_each (add_instance c) games f in
              elim (Bool-cases (page.continue == "")) [
                | inl last ↦ rw (there, list_from, some_, last) done
                | inr more ↦
                    elim (Bool-cases
                      (has_key page.continue cursors || ltb 4096 (len page.continue))) [
                        | inl bad ↦ rw (there, list_from, some_, more, bad) done
                        | inr good ↦
                            let rest =
                              list_from-CountedTo pages page.continue (page.continue ∷ cursors) g
                                (n + 1) r.1 q in
                            rw (there, list_from, some_, more, good)
                              (rest.0, omega (arith, rest.1), rest.2)
                      ]
              ]
        ]
      ]

-- Whatever the API server answers, a list that is returned has each instance once, and only
-- instances that the client makes of game servers of its own deployment, whose names are those of
-- their workers. Returned or not, the client has asked for at most a hundred pages, and made no
-- other request: any count that holds at first and goes up with each page holds at the end, with at
-- most a hundred.
pub list_instances-Inventory :
    (c : Client) (server : Server) (s : server.State) (P : ℕ → server.State → Type 0)
    → Counts server P
    → P 0 s
    → ((l : List Instance) → (list_instances c server s).0 ≡ ok l → Inventory c l)
      × CountedTo P 100 (list_instances c server s).1
unfolding list_instances ListedIfOk Ours
list_instances-Inventory c server s P counts p = (
  λ l e. subst (ListedIfOk c) e (
      list_from-Listed c server 100 "" [] (record { instances = []; seen = [] }) s
        (record { ours = tt; distinct = tt; known = λ k. refl })),
  list_from-CountedTo c server P counts 100 "" [] (record { instances = []; seen = [] }) 0 s p,
)
