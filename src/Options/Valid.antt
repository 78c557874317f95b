-- ===== src/Options/Valid.antt =====
-- Whatever options are given, the settings of options.go are usable.
use pacecache.Prelude.{
  ℕ, ◌≤◌, ◌<◌, ◌≡◌, true, Option, none, some, List, [], ◌∷◌, map, arith, ◌||◌, refl, sym, subst,
}
use pacecache.Prelude.Int.{ℤ, pos, negsuc, is_positive, to_nat}
use pacecache.Options.{
  Settings, Setter, default_settings, apply_options, new_settings, is_no_expiration, with_name,
  with_max_entries, with_segment_count, with_ttl, with_jitter, with_sliding_expiration,
  with_cleanup_interval, with_cleanup_batch_size, with_cleanup_entry_budget,
}

-- A call of one of the exported option functions, or a nil option.
pub data Choice : Type 0 where
  no_option : Choice
  name : List ℕ → Choice
  max_entries : ℤ → Choice
  segment_count : ℤ → Choice
  ttl : ℤ → Choice
  jitter : ℤ → Choice
  sliding_expiration : Choice
  cleanup_interval : ℤ → Choice
  cleanup_batch_size : ℤ → Choice
  cleanup_entry_budget : ℤ → Choice

abbrev pub chosen : Choice → Option Setter
chosen Choice.no_option = none
chosen (Choice.name n) = some (with_name n)
chosen (Choice.max_entries n) = some (with_max_entries n)
chosen (Choice.segment_count n) = some (with_segment_count n)
chosen (Choice.ttl t) = some (with_ttl t)
chosen (Choice.jitter j) = some (with_jitter j)
chosen Choice.sliding_expiration = some with_sliding_expiration
chosen (Choice.cleanup_interval n) = some (with_cleanup_interval n)
chosen (Choice.cleanup_batch_size n) = some (with_cleanup_batch_size n)
chosen (Choice.cleanup_entry_budget n) = some (with_cleanup_entry_budget n)

-- Every size and interval is positive, and the lifetime is positive or NoExpiration.
abbrev pub Positive : Settings → Type 0
Positive s =
    (0 < s.max_entries)
    × (0 < s.segment_count)
    × ((is_no_expiration s.ttl || is_positive s.ttl) ≡ true)
    × (0 < s.cleanup_interval)
    × (0 < s.cleanup_batch_size)
    × (0 < s.cleanup_entry_budget)

positive-to_nat : (n : ℤ) → is_positive n ≡ true → 0 < to_nat n
positive-to_nat (pos n) e = ground arith
positive-to_nat (negsuc n) e = ground arith

chosen-Positive :
    (c : Choice) (s : Settings) → Positive s → Positive (apply_options (chosen c ∷ []) s)
unfolding with_name with_max_entries with_segment_count with_ttl with_jitter with_sliding_expiration
    with_cleanup_interval with_cleanup_batch_size with_cleanup_entry_budget
chosen-Positive Choice.no_option s p = p
chosen-Positive (Choice.name n) s p = ground arith
chosen-Positive (Choice.max_entries n) s p = ground (arith, positive-to_nat n)
chosen-Positive (Choice.segment_count n) s p = ground (arith, positive-to_nat n)
chosen-Positive (Choice.ttl t) s p = ground arith
chosen-Positive (Choice.jitter j) s p = ground arith
chosen-Positive Choice.sliding_expiration s p = ground arith
chosen-Positive (Choice.cleanup_interval n) s p = ground (arith, positive-to_nat n)
chosen-Positive (Choice.cleanup_batch_size n) s p = ground (arith, positive-to_nat n)
chosen-Positive (Choice.cleanup_entry_budget n) s p = ground (arith, positive-to_nat n)

apply_options-Positive :
    (cs : List Choice) (s : Settings) → Positive s → Positive (apply_options (map chosen cs) s)
apply_options-Positive [] s p = p
apply_options-Positive (c ∷ cs) s p =
    subst Positive (sym (one c))
      (apply_options-Positive cs (apply_options (chosen c ∷ []) s) (chosen-Positive c s p))
  where
    one :
        (d : Choice)
        → apply_options (map chosen (d ∷ cs)) s
          ≡ apply_options (map chosen cs) (apply_options (chosen d ∷ []) s)
    one d = step (chosen d)
      where
        step :
            (o : Option Setter)
            → apply_options (o ∷ map chosen cs) s
              ≡ apply_options (map chosen cs) (apply_options (o ∷ []) s)
        step none = refl
        step (some f) = refl

-- Whatever options a cache is created with, its sizes and intervals are positive, its lifetime is
-- positive or NoExpiration, and it has no more segments than entries.
pub new_settings-Positive :
    (cs : List Choice)
    → Positive (new_settings (map chosen cs))
      × ((new_settings (map chosen cs)).segment_count ≤ (new_settings (map chosen cs)).max_entries)
unfolding new_settings default_settings
new_settings-Positive cs = ground (arith, apply_options-Positive cs default_settings (ground arith))
