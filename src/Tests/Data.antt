-- ===== src/Tests/Data.antt =====
-- Data items, observations and buffers for the tests.
use cppagent.Base.{
  ℕ, suc, zero, ◌+◌, ◌%◌, ◌≡◌, false, List, [], ◌∷◌, Text, codes, some, get_elem?, if◌then◌else◌,
  ◌==◌, arith,
}
use mathlib.Core.Option.{some-injective}
use cppagent.DataSet.{nil}
use cppagent.DataItem.{DataItem, Category, Representation}
use cppagent.Observation.{Observation}

-- An event data item.
abbrev pub event_item : Text → DataItem
event_item id = record {
  id = id;
  name = [];
  type = codes "MODE";
  sub_type = [];
  category = Category.event;
  representation = Representation.value;
  statistic = [];
  composition_id = [];
  native_units = [];
  units = [];
  source = [];
  is_discrete = false;
  is_alarm = false;
  is_message = false;
  is_asset_changed = false;
  is_asset_removed = false;
  reset_trigger = [];
  initial_value = [];
  values = [];
  has_constraints = false;
  has_minimum_delta = false;
  has_minimum_period = false;
}

abbrev pub condition_item : DataItem
condition_item = record (event_item (codes "c1")) { category = Category.condition }

abbrev pub set_item : DataItem
set_item = record (event_item (codes "s1")) { representation = Representation.data_set }

-- The report number `n` of an item.
abbrev pub report : DataItem → ℕ → Text → Observation
report item n rest = record {
  item = item;
  sequence = n;
  time = [];
  duration = [];
  rest = rest;
  value = codes "A";
  time_series = [];
  reset_triggered = [];
  values = nil;
}

-- Reports of two items in turn.
abbrev pub evs : ℕ → Observation
evs n = report (if n % 2 == 0 then event_item (codes "d2") else event_item (codes "d1")) n []

abbrev pub events_from : ℕ → ℕ → List Observation
events_from s zero = []
events_from s (suc n) = evs s ∷ events_from (s + 1) n

pub get_elem?-events_from :
    (s n i : ℕ) (o : Observation) → get_elem? (events_from s n) i ≡ some o → evs (s + i) ≡ o
get_elem?-events_from s zero i o e = cc
get_elem?-events_from s (suc n) zero o e =
    let z : s + 0 ≡ s = omega arith in rw z (some-injective _ _ e)
get_elem?-events_from s (suc n) (suc i) o e =
    let z : s + suc i ≡ s + 1 + i = omega arith in rw z (get_elem?-events_from (s + 1) n i o e)
