-- ===== src/Options.antt =====
-- options.go: the settings of a cache and the options that change them. A name is its bytes. The
-- argument of an option may be negative; a setting that no option makes negative is a natural number.
pub mod Valid
use pacecache.Prelude.{
  ℕ, ◌+◌, ◌*◌, Bool, true, false, Option, none, some, List, [], ◌∷◌, ltb, ◌==◌, ◌||◌, if◌then◌else◌,
}
use pacecache.Prelude.Int.{ℤ, pos, negsuc, is_positive, is_nonneg, to_nat}
use pacecache.Clock.{no_expiration}

abbrev pub default_max_entries : ℕ
default_max_entries = 10000

abbrev pub default_ttl : ℤ
default_ttl = no_expiration

abbrev pub default_storage_segment_count : ℕ
default_storage_segment_count = 1

-- time.Minute
abbrev pub default_cleanup_interval : ℕ
default_cleanup_interval = 60000000000

abbrev pub default_cleanup_batch_size : ℕ
default_cleanup_batch_size = 256

abbrev pub default_cleanup_entry_budget : ℕ
default_cleanup_entry_budget = 16 * 1024

pub record Settings : Type 0 where
  pub name : List ℕ
  pub max_entries : ℕ
  pub segment_count : ℕ
  pub ttl : ℤ
  pub jitter : ℕ
  pub sliding_expiration : Bool
  pub cleanup_interval : ℕ
  pub cleanup_batch_size : ℕ
  pub cleanup_entry_budget : ℕ

abbrev pub Setter : Type 0
Setter = Settings → Settings

unfoldable pub default_settings : Settings
default_settings = record {
  name = [];
  max_entries = default_max_entries;
  segment_count = default_storage_segment_count;
  ttl = default_ttl;
  jitter = 0;
  sliding_expiration = false;
  cleanup_interval = default_cleanup_interval;
  cleanup_batch_size = default_cleanup_batch_size;
  cleanup_entry_budget = default_cleanup_entry_budget;
}

-- `none` is a nil option.
abbrev pub apply_options : List (Option Setter) → Settings → Settings
apply_options [] s = s
apply_options (none ∷ options) s = apply_options options s
apply_options (some option ∷ options) s = apply_options options (option s)

unfoldable pub new_settings : List (Option Setter) → Settings
unfolding default_settings
new_settings options =
    let s = apply_options options default_settings in
    if ltb s.max_entries s.segment_count then record s { segment_count = s.max_entries } else s

unfoldable pub with_name : List ℕ → Setter
with_name name s = record s { name = name }

unfoldable pub with_max_entries : ℤ → Setter
with_max_entries n s = if is_positive n then record s { max_entries = to_nat n } else s

unfoldable pub with_segment_count : ℤ → Setter
with_segment_count n s = if is_positive n then record s { segment_count = to_nat n } else s

-- ttl == NoExpiration
abbrev pub is_no_expiration : ℤ → Bool
is_no_expiration (pos n) = false
is_no_expiration (negsuc n) = n == 0

unfoldable pub with_ttl : ℤ → Setter
with_ttl ttl s = if is_no_expiration ttl || is_positive ttl then record s { ttl = ttl } else s

unfoldable pub with_jitter : ℤ → Setter
with_jitter jitter s = if is_nonneg jitter then record s { jitter = to_nat jitter } else s

unfoldable pub with_sliding_expiration : Setter
with_sliding_expiration s = record s { sliding_expiration = true }

unfoldable pub with_cleanup_interval : ℤ → Setter
with_cleanup_interval n s = if is_positive n then record s { cleanup_interval = to_nat n } else s

unfoldable pub with_cleanup_batch_size : ℤ → Setter
with_cleanup_batch_size n s =
    if is_positive n then record s { cleanup_batch_size = to_nat n } else s

unfoldable pub with_cleanup_entry_budget : ℤ → Setter
with_cleanup_entry_budget n s =
    if is_positive n then record s { cleanup_entry_budget = to_nat n } else s
