-- ===== src/Expiration.antt =====
-- Which bucket of expiration.go an entry belongs to, and what a segment asks of the expiration
-- index: the operations, and their laws in terms of the deadline under which each entry is filed.
-- Times are nanoseconds since the storage was created. The clock is monotonic, so a time is not
-- negative, and the guards `deadline <= 0` and `now < 0` leave the one case `deadline == 0`.
pub mod Buckets
pub mod Heap
pub mod Lists
pub mod Index
use pacecache.Prelude.{
  ℕ, ◌+◌, ◌/◌, ◌%◌, ◌≤◌, ◌<◌, ◌≡◌, ◌≢◌, Bool, true, false, Result, ok, ltb, ◌==◌, ◌!=◌,
  if◌then◌else◌,
}
use pacecache.Chain.{Ptr, nil, write}

-- 5 * time.Second
abbrev pub default_expiration_bucket_resolution : ℕ
default_expiration_bucket_resolution = 5000000000

-- The first bucket boundary at or after the deadline.
unfoldable pub bucket_id : ℕ → ℕ → ℕ
bucket_id resolution deadline =
    if deadline == 0
    then 0
    else let id = deadline / resolution in if (deadline % resolution) != 0 then id + 1 else id

unfoldable pub due_bucket_id : ℕ → ℕ → ℕ
due_bucket_id resolution now = now / resolution

-- The operations of `expirationIndex`. The deadline of an entry is a field of the entry: `update`
-- and `remove` are handed the old one.
pub record IndexOps : Type 1 where
  pub State : Type 0
  pub resolution : State → ℕ
  pub create : (resolution : ℕ) → State
  pub update : State → Ptr → (old deadline : ℕ) → Result State
  pub remove : State → Ptr → (deadline : ℕ) → Result State
  pub reset : State → State
  pub has_due_bucket : State → (due_bucket : ℕ) → Bool
  pub pop_root_entry : State → Result (Ptr × State)

abbrev pub enabled : (ix : IndexOps) → ix.State → Bool
enabled ix i = ltb 0 (ix.resolution i)

-- `Files i m`: the index `i` holds each entry `p` with `m p` other than 0 under the deadline `m p`,
-- and no other entry.
pub record IndexLaws (ix : IndexOps) : Type 1 where
  pub Files : ix.State → (Ptr → ℕ) → Type 0
  pub create_files : (r : ℕ) → Files (ix.create r) (λ _. 0) × (ix.resolution (ix.create r) ≡ r)
  pub update_files :
      (i : ix.State) (m : Ptr → ℕ) (p : Ptr) (old deadline : ℕ)
      → Files i m
      → p ≢ nil
      → m p ≡ old
      → (j : ix.State) × (ix.update i p old deadline ≡ ok j)
        × Files j (write m p deadline)
        × (ix.resolution j ≡ ix.resolution i)
  pub remove_files :
      (i : ix.State) (m : Ptr → ℕ) (p : Ptr) (old : ℕ)
      → Files i m
      → p ≢ nil
      → m p ≡ old
      → (j : ix.State) × (ix.remove i p old ≡ ok j)
        × Files j (write m p 0)
        × (ix.resolution j ≡ ix.resolution i)
  pub reset_files :
      (i : ix.State) (m : Ptr → ℕ)
      → Files i m
      → Files (ix.reset i) (λ _. 0) × (ix.resolution (ix.reset i) ≡ ix.resolution i)
  -- A due bucket yields an entry of the earliest bucket that is filed.
  pub pop_files :
      (i : ix.State) (m : Ptr → ℕ) (due : ℕ)
      → Files i m
      → ix.has_due_bucket i due ≡ true
      → (p : Ptr) × (j : ix.State) × (ix.pop_root_entry i ≡ ok (p, j))
        × (m p ≢ 0)
        × (bucket_id (ix.resolution i) (m p) ≤ due)
        × Files j (write m p 0)
        × (ix.resolution j ≡ ix.resolution i)
  -- With no due bucket, no filed entry is due.
  pub none_due :
      (i : ix.State) (m : Ptr → ℕ) (due : ℕ)
      → Files i m
      → 0 < ix.resolution i
      → ix.has_due_bucket i due ≡ false
      → (p : Ptr) → m p ≢ 0
      → due < bucket_id (ix.resolution i) (m p)
