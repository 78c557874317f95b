-- ===== src/Metrics/Instruments.antt =====
-- extra/paceotel/cache.go: the instruments, their names, and what is observed of the statistics.
use pacecache.Prelude.{ℕ, ◌⊎◌, inl, inr}
use Prim.Native.String.{String}

abbrev pub entry_count_metric_name : String
entry_count_metric_name = "pacecache.entry.count"

abbrev pub entry_limit_metric_name : String
entry_limit_metric_name = "pacecache.entry.limit"

abbrev pub segment_count_metric_name : String
segment_count_metric_name = "pacecache.segment.count"

abbrev pub lookup_count_metric_name : String
lookup_count_metric_name = "pacecache.lookup.count"

abbrev pub load_count_metric_name : String
load_count_metric_name = "pacecache.load.count"

abbrev pub load_time_metric_name : String
load_time_metric_name = "pacecache.load.time"

abbrev pub load_shared_count_metric_name : String
load_shared_count_metric_name = "pacecache.load.shared.count"

abbrev pub load_superseded_count_metric_name : String
load_superseded_count_metric_name = "pacecache.load.superseded.count"

abbrev pub removed_count_metric_name : String
removed_count_metric_name = "pacecache.entry.removed.count"

abbrev pub cleanup_count_metric_name : String
cleanup_count_metric_name = "pacecache.cleanup.count"

abbrev pub cleanup_worker_run_count_metric_name : String
cleanup_worker_run_count_metric_name = "pacecache.cleanup.worker.run.count"

abbrev pub cleanup_worker_pending_count_metric_name : String
cleanup_worker_pending_count_metric_name = "pacecache.cleanup.worker.pending.count"

abbrev pub cleanup_worker_time_metric_name : String
cleanup_worker_time_metric_name = "pacecache.cleanup.worker.time"

abbrev pub eviction_count_metric_name : String
eviction_count_metric_name = "pacecache.entry.eviction.count"

abbrev pub expiration_count_metric_name : String
expiration_count_metric_name = "pacecache.entry.expiration.count"

pub record MetricInstruments : Type 0 where
  pub entry_count : ℕ
  pub entry_limit : ℕ
  pub segment_count : ℕ
  pub lookup_count : ℕ
  pub load_count : ℕ
  pub load_time : ℕ
  pub load_shared_count : ℕ
  pub load_superseded_count : ℕ
  pub removed_count : ℕ
  pub cleanup_count : ℕ
  pub cleanup_worker_run_count : ℕ
  pub cleanup_worker_pending_count : ℕ
  pub cleanup_worker_time : ℕ
  pub eviction_count : ℕ
  pub expiration_count : ℕ

-- `newMetricError`
pub data MetricError : Type 0 where
  create_metric : (name : String) → (err : ℕ) → MetricError

pub data Checked (A : Type 0) : Type 0 where
  checked : A → Checked A
  refused : MetricError → Checked A

infixl 10 ◌>>=◌
abbrev pub ◌>>=◌ : {A B : Type 0} → Checked A → (A → Checked B) → Checked B
checked a >>= f = f a
refused e >>= f = refused e

abbrev pub new_instrument : (create : String → ℕ ⊎ ℕ) → String → Checked ℕ
new_instrument create name = elim (create name) [
  | inl instrument ↦ checked instrument
  | inr err ↦ refused (create_metric name err)
]

unfoldable pub new_metric_instruments : (create : String → ℕ ⊎ ℕ) → Checked MetricInstruments
new_metric_instruments create = do
  entry_count ← new_instrument create entry_count_metric_name
  entry_limit ← new_instrument create entry_limit_metric_name
  segment_count ← new_instrument create segment_count_metric_name
  lookup_count ← new_instrument create lookup_count_metric_name
  load_count ← new_instrument create load_count_metric_name
  load_time ← new_instrument create load_time_metric_name
  load_shared_count ← new_instrument create load_shared_count_metric_name
  load_superseded_count ← new_instrument create load_superseded_count_metric_name
  removed_count ← new_instrument create removed_count_metric_name
  cleanup_count ← new_instrument create cleanup_count_metric_name
  cleanup_worker_run_count ← new_instrument create cleanup_worker_run_count_metric_name
  cleanup_worker_pending_count ← new_instrument create cleanup_worker_pending_count_metric_name
  cleanup_worker_time ← new_instrument create cleanup_worker_time_metric_name
  eviction_count ← new_instrument create eviction_count_metric_name
  expiration_count ← new_instrument create expiration_count_metric_name
  checked (record {
    entry_count = entry_count;
    entry_limit = entry_limit;
    segment_count = segment_count;
    lookup_count = lookup_count;
    load_count = load_count;
    load_time = load_time;
    load_shared_count = load_shared_count;
    load_superseded_count = load_superseded_count;
    removed_count = removed_count;
    cleanup_count = cleanup_count;
    cleanup_worker_run_count = cleanup_worker_run_count;
    cleanup_worker_pending_count = cleanup_worker_pending_count;
    cleanup_worker_time = cleanup_worker_time;
    eviction_count = eviction_count;
    expiration_count = expiration_count;
  })
