-- ===== src/Console/Alerts/Samples.antt =====
-- What a snapshot says of every alert (alertSamples of internal/console/alerts.go). The double
-- arithmetic that the program leaves to the processor is a parameter.
use Prim.Native.String.{◌++◌ as text_append}
use nakama_agones.Prelude.{ℕ, String, Bool, ◌&&◌, List, [], ◌∷◌, if◌then◌else◌, text_Eq, for_each}
use nakama_agones.Prelude.Int.{ℤ, pos}
use nakama_agones.Prelude.Float.{Float, whole, ltb_float, leb_float}
use nakama_agones.Prelude.Table.{Table, insert}
use nakama_agones.Console.Names.{worker_name, dns_name}
use nakama_agones.Console.Values.{
  Json, Fields, number, map_object, at_key, text_field, objects, is_true, is_text,
}
use nakama_agones.Console.Alerts.{AlertConfig, AlertSample}

pub record Doubles : Type 0 where
  pub plus : Float → Float → Float
  pub minus : Float → Float → Float
  -- float64(n)
  pub of_int : ℤ → Float
  -- %.1f
  pub decimal : Float → String

pub record AlertRule : Type 0 where
  pub field : String
  pub kind : String
  pub origin : String
  pub threshold : Float
  pub window : Bool

unfoldable pub alert_rules : AlertConfig → List AlertRule
alert_rules cfg =
    (record {
      field = "client_presentation_to_ready_ms";
      kind = "client_wait_high";
      origin = "client_reported";
      threshold = cfg.wait_p95_ms;
      window = Bool.true;
    })
    ∷ (record {
      field = "client_presentation_to_settlement_ms";
      kind = "client_settlement_wait_high";
      origin = "client_reported";
      threshold = cfg.wait_p95_ms;
      window = Bool.true;
    })
    ∷ (record {
      field = "frame_p99_ms";
      kind = "frame_p99_high";
      origin = "game_server";
      threshold = cfg.frame_p99_ms;
      window = Bool.false;
    })
    ∷ []

module _ (doubles : Doubles) (cfg : AlertConfig) (now : ℕ) where
  -- float64(now)
  clock : Float
  clock = doubles.of_int (pos now)

  -- the heartbeat is at most 15 seconds old, and at most 5 in the future
  unfoldable pub fresh_heartbeat : Float → Bool
  unfolding clock whole ltb_float leb_float
  fresh_heartbeat hb =
      ltb_float (whole 0) hb
      && leb_float (doubles.minus clock hb) (whole 15)
      && leb_float (doubles.minus hb (whole 5)) clock

  -- the value of a window of measurements, and whether it is known
  unfoldable pub window_value : Float → Fields → Float × Bool
  unfolding fresh_heartbeat clock whole ltb_float leb_float number
  window_value hb w =
      let count = number (at_key w "count") in
      let age = number (at_key w "last_sample_age_seconds") in
      let value = number (at_key w "p95") in
      let seconds = (number (at_key w "window_seconds")).0 in
      (
        value.0,
        fresh_heartbeat hb
            && count.1
            && leb_float (doubles.of_int cfg.min_samples) count.0
            && leb_float seconds (whole 60)
            && leb_float (whole 60) seconds
            && age.1
            && leb_float (whole 0) age.0
            && leb_float (doubles.minus (doubles.plus age.0 clock) hb) (whole 60)
            && value.1
            && leb_float (whole 0) value.0,
      )

  unfoldable pub frame_value : Float → Json → Float × Bool
  unfolding fresh_heartbeat whole leb_float number
  frame_value hb v =
      let value = number v in
      (value.0, fresh_heartbeat hb && value.1 && leb_float (whole 0) value.0)

  unfoldable pub worker_sample : Fields → AlertRule → AlertSample
  unfolding window_value frame_value ltb_float number map_object at_key text_field
  worker_sample w rule =
      let id = text_field w "id" in
      let hb = (number (at_key w "last_heartbeat")).0 in
      let measured = at_key (map_object (at_key w "metrics")) rule.field in
      let v =
        if rule.window then window_value hb (map_object measured) else frame_value hb measured in
      record {
        key = text_append rule.kind (text_append ":" id);
        kind = rule.kind;
        worker_id = id;
        region = text_field w "region";
        origin = rule.origin;
        value = v.0;
        threshold = rule.threshold;
        known = v.1;
        breached = v.1 && ltb_float rule.threshold v.0;
      }

  unfoldable pub worker_samples : Fields → Table AlertSample → Table AlertSample
  unfolding worker_sample alert_rules for_each insert worker_name text_field
  worker_samples w out =
      if worker_name (text_field w "id")
      then for_each (λ rule. insert (worker_sample w rule).key (worker_sample w rule))
          (alert_rules cfg) out
      else out

  -- a pod that the scheduler could not place
  unfoldable pub shortage : Fields → Bool
  unfolding at_key is_text is_true
  shortage p =
      is_text "Pending" (at_key p "phase") && is_true (at_key p "scheduling_capacity_shortage")

  -- `for range pods { if shortage { value++ } }`
  unfoldable pub count_shortages : List Fields → Float → Float
  unfolding shortage whole
  count_shortages [] value = value
  count_shortages (p ∷ ps) value =
      count_shortages ps (if shortage p then doubles.plus value (whole 1) else value)

  unfoldable pub region_sample : Fields → AlertSample
  unfolding count_shortages whole ltb_float text_field at_key objects is_true
  region_sample r =
      let name = text_field r "name" in
      let value = count_shortages (objects (at_key r "pods")) (whole 0) in
      let known = is_true (at_key r "ok") in
      record {
        key = text_append "physical_capacity_shortage:" name;
        kind = "physical_capacity_shortage";
        worker_id = "";
        region = name;
        origin = "kubernetes_scheduler";
        value = value;
        threshold = whole 0;
        known = known;
        breached = known && ltb_float (whole 0) value;
      }

  unfoldable pub region_samples : Fields → Table AlertSample → Table AlertSample
  unfolding region_sample dns_name text_field insert
  region_samples r out =
      if dns_name (text_field r "name")
      then insert (region_sample r).key (region_sample r) out
      else out

  unfoldable pub alert_samples : Fields → Table AlertSample
  unfolding worker_samples region_samples for_each at_key map_object objects is_true
  alert_samples snapshot =
      let fleet = map_object (at_key snapshot "fleet") in
      let of_workers =
        if is_true (at_key fleet "ok")
        then for_each worker_samples (objects (at_key fleet "workers")) []
        else [] in
      for_each region_samples (objects (at_key snapshot "regions")) of_workers
