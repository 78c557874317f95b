-- ===== src/Expiration/Buckets.antt =====
-- The bucketID and dueBucketID of expiration.go: the buckets against the deadlines.
use pacecache.Prelude.{ℕ, ◌+◌, ◌*◌, ◌≤◌, ◌<◌, arith}
use pacecache.Expiration.{bucket_id, due_bucket_id}

module _ (resolution deadline : ℕ) (positive : 0 < resolution) where
  -- The boundary of the bucket is the first one at or after the deadline.
  pub bucket_id-bounds :
      (deadline ≤ bucket_id resolution deadline * resolution)
      × (bucket_id resolution deadline * resolution < deadline + resolution)
  unfolding bucket_id
  bucket_id-bounds = grind arith

  -- For a positive resolution, if the bucket of a deadline is due, then the deadline has passed.
  pub due-expired :
      (now : ℕ) → bucket_id resolution deadline ≤ due_bucket_id resolution now → deadline ≤ now
  unfolding due_bucket_id
  due-expired now h = grind (arith, bucket_id-bounds)

  -- For a positive resolution, one resolution interval after a deadline its bucket is due.
  pub expired-due :
      (now : ℕ)
      → deadline + resolution ≤ now + 1
      → bucket_id resolution deadline ≤ due_bucket_id resolution now
  unfolding due_bucket_id
  expired-due now h = grind (arith, bucket_id-bounds)
