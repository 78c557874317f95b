-- ===== src/Tests/Meters.antt =====
-- The theorems on extra/paceotel at concrete inputs.
use pacecache.Prelude.{
  ℕ, Bool, true, false, ◌⊎◌, inl, Option, none, some, List, [], ◌∷◌, ◌≡◌, refl, ◌↔◌, arith, has,
  map, ◌==◌, if◌then◌else◌,
}
use Prim.Native.String.{String}
use text.Mathlib.Text
use text.Mathlib.TextEquality.{eq_iff}
use pacecache.Cache.Snapshot.{stats}
use pacecache.Metrics.{
  Metrics, new_metrics, RegistryError, is_unregistered, unregister, register, find_registration,
}
use pacecache.Metrics.Attributes.{
  MetricAttributes, new_metric_attributes, last_value, Labelled, new_metric_attributes-Labelled,
  cache_name_attribute, lookup_result_attribute, load_result_attribute, removal_operation_attribute,
  lookup_result_hit, lookup_result_miss, load_result_found, load_result_not_found,
  load_result_error, removal_operation_delete, removal_operation_clear,
}
use pacecache.Metrics.Instruments.{MetricInstruments}
use pacecache.Metrics.Observe.{Observation, observe, observables, observe-observables}
use pacecache.Metrics.Registry.{
  Sane, Event, registered, unregistered, history, history-Sane, still, unregister-left,
  new_metrics-Sane,
}
use pacecache.Tests.Caches.{test_cache}

by_test : (s t : String) (b : Bool) → Text.◌==◌ s t ≡ b → Dec (s ≡ t)
by_test s t true e = yes ((eq_iff s t).0 e)
by_test s t false e = no (λ p. ground (arith, (eq_iff s t).1 p, e))

text_discrete : Discrete String
unfolding by_test
text_discrete s t = by_test s t (Text.◌==◌ s t) refl

-- A meter that gives every name the same instrument.
abbrev test_create : String → ℕ ⊎ ℕ
test_create name = inl 1

-- Two sources, the first of them twice, and the end with a registration that is not undone.
abbrev test_events : List Event
test_events =
    registered test_create (inl 1) (some "users")
    ∷ registered test_create (inl 2) (some "orders")
    ∷ registered test_create (inl 3) (some "users")
    ∷ unregistered (λ r. if r == 2 then some 9 else none)
    ∷ []

history-Sane_example :
    (m : Metrics) × (history text_discrete test_events (some new_metrics) ≡ some m)
    × Sane text_discrete m
history-Sane_example =
    history-Sane text_discrete test_events new_metrics (new_metrics-Sane text_discrete)

abbrev test_instruments : MetricInstruments
test_instruments = record {
  entry_count = 1;
  entry_limit = 2;
  segment_count = 3;
  lookup_count = 4;
  load_count = 5;
  load_time = 6;
  load_shared_count = 7;
  load_superseded_count = 8;
  removed_count = 9;
  cleanup_count = 10;
  cleanup_worker_run_count = 11;
  cleanup_worker_pending_count = 12;
  cleanup_worker_time = 13;
  eviction_count = 14;
  expiration_count = 15;
}

abbrev test_metrics : Metrics
test_metrics = record {
  instruments = some test_instruments;
  registrations = ("orders", 2) ∷ ("users", 1) ∷ [];
  closed = false;
}

abbrev test_fails : ℕ → Option ℕ
test_fails r = if r == 2 then some 9 else none

test_metrics-Sane : Sane text_discrete test_metrics
unfolding text_discrete
test_metrics-Sane = record {
  distinct = (refl, (refl, tt));
  closed = λ e. ground (arith, e);
  empty = λ e f. ground (arith, f);
}

unregister-left_example :
    (m' : Metrics) × (err : Option RegistryError) × (unregister test_fails (some test_metrics)
      ≡ (some m', err))
    × ((err ≡ none) ↔ (m'.registrations ≡ []))
    × ((name : String)
        → find_registration text_discrete name m'.registrations
          ≡ still text_discrete test_fails
              (find_registration text_discrete name test_metrics.registrations))
    × ((create : String → ℕ ⊎ ℕ) (callback : ℕ ⊎ ℕ) (name : String)
        → register text_discrete create callback (some name) (some m')
          ≡ (some m', some is_unregistered))
unregister-left_example = unregister-left text_discrete test_fails test_metrics test_metrics-Sane

-- A user of the attributes gives one under a key of the library.
abbrev test_attributes : List (String × String)
test_attributes = ("host", "a") ∷ ("pacecache.name", "mine") ∷ []

abbrev test_value : List (String × String) → String → Option String
test_value xs key = last_value text_discrete key xs

abbrev test_labels : MetricAttributes (List (String × String))
test_labels = new_metric_attributes (λ s. s) (λ xs. xs) "users" test_attributes

abbrev TestLabelled : List (String × String) → (key label : String) → Type 0
TestLabelled extended key label =
    Labelled (λ s. s) (λ xs. xs) text_discrete test_value (λ xs key. refl) test_labels.base extended
      key label

new_metric_attributes-Labelled_example :
    (test_value test_labels.base cache_name_attribute ≡ some "users")
    × TestLabelled test_labels.hit lookup_result_attribute lookup_result_hit
    × TestLabelled test_labels.miss lookup_result_attribute lookup_result_miss
    × TestLabelled test_labels.load_found load_result_attribute load_result_found
    × TestLabelled test_labels.load_not_found load_result_attribute load_result_not_found
    × TestLabelled test_labels.load_error load_result_attribute load_result_error
    × TestLabelled test_labels.delete_operation removal_operation_attribute removal_operation_delete
    × TestLabelled test_labels.clear_operation removal_operation_attribute removal_operation_clear
new_metric_attributes-Labelled_example =
    new_metric_attributes-Labelled (λ s. s) (λ xs. xs) text_discrete test_value (λ xs key. refl)
      "users" test_attributes

observe-observables_example :
    has 4 (
      map
        (λ (o : Observation (List (String × String))). o.instrument)
        (observe test_instruments (stats test_cache) test_labels))
    ≡ has 4 (observables test_instruments)
observe-observables_example = observe-observables test_instruments (stats test_cache) test_labels 4
