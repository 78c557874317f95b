-- ===== src/Metrics/Observe.antt =====
-- extra/paceotel/cache.go: what is observed of the statistics. A duration is observed in nanoseconds:
-- the conversion to seconds is left out.
use pacecache.Prelude.{ℕ, ◌==◌, ◌||◌, Bool, List, [], ◌∷◌, ◌≡◌, has, map, refl, arith}
use pacecache.Cache.Snapshot.{Stats}
use pacecache.Metrics.Attributes.{MetricAttributes}
use pacecache.Metrics.Instruments.{MetricInstruments}

pub record Observation (S : Type 0) : Type 0 where
  pub instrument : ℕ
  pub value : ℕ
  pub attributes : S

module _ {S : Type 0} where
  abbrev pub observe_int64 : (instrument value : ℕ) → S → Observation S
  observe_int64 instrument value attributes = record {
    instrument = instrument;
    value = value;
    attributes = attributes;
  }

  abbrev pub observe_float64 : (instrument duration : ℕ) → S → Observation S
  observe_float64 instrument duration attributes = record {
    instrument = instrument;
    value = duration;
    attributes = attributes;
  }

  unfoldable pub observe : MetricInstruments → Stats → MetricAttributes S → List (Observation S)
  observe i s a =
      observe_int64 i.entry_count s.entry_count a.base
      ∷ observe_int64 i.entry_limit s.max_entries a.base
      ∷ observe_int64 i.segment_count s.segment_count a.base
      ∷ observe_int64 i.lookup_count s.hit_count a.hit
      ∷ observe_int64 i.lookup_count s.miss_count a.miss
      ∷ observe_int64 i.load_count s.load_found_count a.load_found
      ∷ observe_int64 i.load_count s.load_not_found_count a.load_not_found
      ∷ observe_int64 i.load_count s.load_error_count a.load_error
      ∷ observe_float64 i.load_time s.load_duration a.base
      ∷ observe_int64 i.load_shared_count s.shared_count a.base
      ∷ observe_int64 i.load_superseded_count s.load_superseded_count a.base
      ∷ observe_int64 i.removed_count s.deleted_entry_count a.delete_operation
      ∷ observe_int64 i.removed_count s.cleared_entry_count a.clear_operation
      ∷ observe_int64 i.cleanup_count s.cleanup_count a.base
      ∷ observe_int64 i.cleanup_worker_run_count s.cleanup_worker_run_count a.base
      ∷ observe_int64 i.cleanup_worker_pending_count s.cleanup_worker_pending_count a.base
      ∷ observe_float64 i.cleanup_worker_time s.cleanup_worker_duration a.base
      ∷ observe_int64 i.eviction_count s.eviction_count a.base
      ∷ observe_int64 i.expiration_count s.expiration_count a.base
      ∷ []

unfoldable pub observables : MetricInstruments → List ℕ
observables i =
    i.entry_count ∷ i.entry_limit ∷ i.segment_count ∷ i.lookup_count ∷ i.load_count ∷ i.load_time
    ∷ i.load_shared_count ∷ i.load_superseded_count ∷ i.removed_count ∷ i.cleanup_count
    ∷ i.cleanup_worker_run_count ∷ i.cleanup_worker_pending_count ∷ i.cleanup_worker_time
    ∷ i.eviction_count ∷ i.expiration_count ∷ []

-- What is tested twice.
or_same : (a b : Bool) → (a || (a || b)) ≡ (a || b)
or_same a b = ground arith

module _ {S : Type 0} where
  -- The instruments of which a callback observes a value are exactly those that it is registered
  -- for.
  pub observe-observables :
      (i : MetricInstruments) (s : Stats) (a : MetricAttributes S) (instrument : ℕ)
      → has instrument (map (λ (o : Observation S). o.instrument) (observe i s a))
        ≡ has instrument (observables i)
  unfolding observe observables
  observe-observables i s a instrument =
      rw
        (
          or_same (instrument == i.lookup_count),
          or_same (instrument == i.load_count),
          or_same (instrument == i.load_count),
          or_same (instrument == i.removed_count),
        )
        refl
