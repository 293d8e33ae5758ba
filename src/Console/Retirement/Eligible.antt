-- ===== src/Console/Retirement/Eligible.antt =====
-- What a node that may be retired has been seen to be (internal/console/retirement.go).
use mathlib.Core.Path.{subst}
use nakama_agones.Prelude.{
  ◌≡◌, refl, sym, ◌∙◌, String, Bool, true, false, not, ◌&&◌, Option, none, some, List, ◌∷◌, arith,
  Bool-cases, inl, inr, ◌==◌, text_Eq, number_Eq, eq_iff,
}
use nakama_agones.Prelude.Table.Distinct.{has_key}
use nakama_agones.Console.Values.{Json, Items, Fields, text_field}
use nakama_agones.Console.Retirement.{RetirementCheck, Verdict, go, stop, fail, ◌>>=◌, ◌>>◌}
use nakama_agones.Console.Retirement.Check.{
  reject_if, terminal_worker, terminal_room, runs_on, check_workers, check_snapshot_rooms,
}

-- A step that went on was one whose parts did.
pub >>=-go :
    {A B : Type 0} (m : Verdict A) (f : A → Verdict B) (b : B)
    → m >>= f ≡ go b
    → (a : A) × (m ≡ go a) × (f a ≡ go b)
unfolding ◌>>=◌
>>=-go (go a) f b e = (a, refl, e)
>>=-go (stop c) f b e = absurd (cc e)
>>=-go (fail x) f b e = absurd (cc e)

pub reject_if-go :
    (c : RetirementCheck) (code : String) (test : Bool) (u : Unit {0})
    → reject_if c code test ≡ go u
    → test ≡ false
unfolding reject_if
reject_if-go c code true u e = absurd (cc e)
reject_if-go c code false u e = refl

-- a test and what follows it
pub rejected-not :
    {B : Type 0} (c : RetirementCheck) (code : String) (test : Bool) (rest : Verdict B) (b : B)
    → reject_if c code test >> rest ≡ go b
    → (test ≡ false) × (rest ≡ go b)
unfolding reject_if ◌>>=◌
rejected-not c code true rest b e = absurd (cc e)
rejected-not c code false rest b e = (refl, e)

-- every object of an array, which has no other members
abbrev pub AllObjects : (Fields → Type 0) → Items → Type 0
AllObjects P Items.no_items = Unit
AllObjects P (Items.item (Json.object w) rest) = P w × AllObjects P rest
AllObjects P (Items.item Json.null rest) = ⊥
AllObjects P (Items.item (Json.flag b) rest) = ⊥
AllObjects P (Items.item (Json.numeral f) rest) = ⊥
AllObjects P (Items.item (Json.string s) rest) = ⊥
AllObjects P (Items.item (Json.array l) rest) = ⊥

module _ (canonical : String → Option String) (c : RetirementCheck) where
  -- a worker on the node has ended, and its identifier is noted
  unfoldable pub Ended : List String → Fields → Type 0
  Ended noted w =
      (text_field w "region" == c.region) ≡ true
      → runs_on canonical c w ≡ true
      → (terminal_worker (text_field w "state") ≡ true) × (has_key (text_field w "id") noted ≡ true)

  unfoldable pub Noted : List String → List String → Items → Type 0
  Noted attached noted items =
      ((k : String) → has_key k attached ≡ true → has_key k noted ≡ true)
      × AllObjects (Ended noted) items

  module _ (w : Fields) (rest : Items) (attached : List String) where
    away :
        (text_field w "region" == c.region) ≡ false
        → check_workers canonical c (Items.item (Json.object w) rest) attached
          ≡ check_workers canonical c rest attached
    unfolding check_workers
    away e = rw e refl

    here :
        (text_field w "region" == c.region) ≡ true
        → runs_on canonical c w ≡ true
        → check_workers canonical c (Items.item (Json.object w) rest) attached ≡ (
            reject_if c "node_has_processing_worker" (not (terminal_worker (text_field w "state")))
            >> check_workers canonical c rest (text_field w "id" ∷ attached))
    unfolding check_workers
    here e on = rw (e, on) refl

    elsewhere :
        (text_field w "region" == c.region) ≡ true
        → runs_on canonical c w ≡ false
        → check_workers canonical c (Items.item (Json.object w) rest) attached ≡ (
            reject_if c "worker_location_unavailable" (
              not (terminal_worker (text_field w "state"))
              && (elim (canonical (text_field w "host")) [ none ↦ true | some s ↦ false ]))
            >> check_workers canonical c rest attached)
    unfolding check_workers
    elsewhere e off = rw (e, off) refl

  pub workers-Noted :
      (items : Items) (attached noted : List String)
      → check_workers canonical c items attached ≡ go noted
      → Noted attached noted items
  unfolding Noted Ended check_workers
  workers-Noted Items.no_items attached noted e =
      let same : attached ≡ noted = cc e in (λ k h. subst (λ l. has_key k l ≡ true) same h, tt)
  workers-Noted (Items.item (Json.object w) rest) attached noted e =
      elim (Bool-cases (text_field w "region" == c.region)) [
        | inr far ↦
            let r = workers-Noted rest attached noted (sym (away w rest attached far) ∙ e) in
            (r.0, ((λ near on. absurd (cc (near, far))), r.1))
        | inl near ↦ elim (Bool-cases (runs_on canonical c w)) [
          | inr off ↦
              let later =
                rejected-not c _ _ _ noted (sym (elsewhere w rest attached near off) ∙ e) in
              let r = workers-Noted rest attached noted later.1 in
              (r.0, ((λ near' on. absurd (cc (on, off))), r.1))
          | inl on ↦
              let later = rejected-not c _ _ _ noted (sym (here w rest attached near on) ∙ e) in
              let r = workers-Noted rest (text_field w "id" ∷ attached) noted later.1 in
              let id = text_field w "id" in
              (
                (λ k h. r.0 k (ground arith)),
                ((λ near' on'. (ground arith, r.0 id (ground (arith, eq_iff id id)))), r.1),
              )
        ]
      ]
  workers-Noted (Items.item Json.null rest) attached noted e = absurd (cc e)
  workers-Noted (Items.item (Json.flag b) rest) attached noted e = absurd (cc e)
  workers-Noted (Items.item (Json.numeral f) rest) attached noted e = absurd (cc e)
  workers-Noted (Items.item (Json.string s) rest) attached noted e = absurd (cc e)
  workers-Noted (Items.item (Json.array l) rest) attached noted e = absurd (cc e)

  -- the rooms of a noted worker are over
  unfoldable pub Over : List String → Fields → Type 0
  Over noted r =
      has_key (text_field r "worker_id") noted ≡ true → terminal_room (text_field r "state") ≡ true

  pub rooms-Over :
      (noted : List String) (items : Items) (u : Unit {0})
      → check_snapshot_rooms canonical c noted items ≡ go u
      → AllObjects (Over noted) items
  unfolding check_snapshot_rooms Over
  rooms-Over noted Items.no_items u e = tt
  rooms-Over noted (Items.item (Json.object r) rest) u e =
      let later = rejected-not c _ _ (check_snapshot_rooms canonical c noted rest) u e in
      ((λ attached. ground arith), rooms-Over noted rest u later.1)
  rooms-Over noted (Items.item Json.null rest) u e = absurd (cc e)
  rooms-Over noted (Items.item (Json.flag b) rest) u e = absurd (cc e)
  rooms-Over noted (Items.item (Json.numeral f) rest) u e = absurd (cc e)
  rooms-Over noted (Items.item (Json.string s) rest) u e = absurd (cc e)
  rooms-Over noted (Items.item (Json.array l) rest) u e = absurd (cc e)
