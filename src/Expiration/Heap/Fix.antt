-- ===== src/Expiration/Heap/Fix.antt =====
-- `Fix` of container/heap on the buckets of expiration.go, and the root of the heap.
use pacecache.Prelude.{ℕ, zero, suc, ◌≤◌, ◌<◌, ◌≡◌, ◌≢◌, ap, some, arith}
use pacecache.Expiration.Heap.{BucketPtr, Heap, fix}
use pacecache.Expiration.Heap.Order.{SameBuckets, parent}
use pacecache.Expiration.Heap.Sift.{DownReady, settle-Sifted}
use pacecache.Expiration.Heap.Edits.{WellFormed}

-- The id of one bucket of the heap changed.
module _ (ids new_ids : BucketPtr → ℕ) (h : Heap) (w : WellFormed ids h) (b : BucketPtr)
    (i : ℕ) where
  -- If the id of one bucket of a well-formed heap changes and the others stay, then fixing the
  -- position of that bucket makes the heap well formed for the new ids, with the same buckets.
  pub fix-WellFormed :
      h.index b ≡ some i
      → ((c : BucketPtr) → c ≢ b → new_ids c ≡ ids c)
      → WellFormed new_ids (fix new_ids h i) × SameBuckets h (fix new_ids h i)
  unfolding fix
  fix-WellFormed at same =
      let (inside, here) = w.placed.members b i at in
      let s = settle-Sifted new_ids h.len i h inside (omega arith) w.placed ready in
      (record { placed = s.placed; ordered = rw s.same.length s.ordered }, s.same)
    where
      unmoved : (m : ℕ) → m < h.len → m ≢ i → new_ids (h.slots m) ≡ ids (h.slots m)
      unmoved m lt other =
          same (h.slots m) (λ e. ground (arith, w.placed.positions m lt, ap h.index e))

      ready : DownReady new_ids h h.len i
      ready = record {
        order = λ m low high other away.
            ground (arith, unmoved m high other, unmoved (parent m), w.ordered m low high);
        grand = λ m low high e above.
            ground
              (arith, unmoved m high, unmoved (parent i), w.ordered m low high, w.ordered i above);
      }

module _ (ids : BucketPtr → ℕ) (h : Heap) (w : WellFormed ids h) where
  -- No bucket is before the root.
  pub root-least : (fuel i : ℕ) → i ≤ fuel → i < h.len → ids (h.slots 0) ≤ ids (h.slots i)
  root-least zero i f lt = ground arith
  root-least (suc fuel) zero f lt = omega arith
  root-least (suc fuel) (suc i) f lt =
      omega (arith, w.ordered (suc i), root-least fuel (parent (suc i)) (omega arith) (omega arith))
