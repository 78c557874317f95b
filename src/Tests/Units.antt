-- ===== src/Tests/Units.antt =====
-- Clocks, options, buckets, heaps, lists, routing and calls.
use pacecache.Prelude.{
  ℕ, ◌+◌, ◌*◌, ◌≡◌, ◌<◌, ◌≤◌, refl, true, none, some, [], ◌∷◌, map, arith, min, ltb, if◌then◌else◌,
  ◌==◌, erase, ◌⊎◌,
}
use pacecache.Prelude.Int.{pos}
use pacecache.Clock.{max_duration, deadline_after, effective_ttl}
use pacecache.Clock.Bounds.{
  deadline_after-monotone, deadline_after-saturates, effective_ttl-positive,
}
use pacecache.Expiration.{bucket_id}
use pacecache.Expiration.Buckets.{bucket_id-bounds}
use pacecache.Expiration.Heap
use pacecache.Expiration.Heap.{Heap}
use pacecache.Expiration.Heap.Order.{SameBuckets}
use pacecache.Expiration.Heap.Edits.{WellFormed, Loses, remove-WellFormed}
use pacecache.Expiration.Heap.Fix.{fix-WellFormed}
use pacecache.Lru.{Lru, push_front, move_to_front, no_links}
use pacecache.Lru.Order.{InOrder, no_links-InOrder, push_front-InOrder, move_to_front-InOrder}
use pacecache.Options.{new_settings}
use pacecache.Options.Valid.{Choice, chosen, Positive, new_settings-Positive}
use pacecache.Singleflight.{Group, new_call}

deadline_after-saturates_example : deadline_after 5 20 ≡ min (5 + 20) max_duration
deadline_after-saturates_example =
    deadline_after-saturates 5 20 (omega arith) (omega arith) (omega arith)

deadline_after-monotone_example :
    (deadline_after 5 20 ≡ min (5 + 20) max_duration)
    × ((5 < deadline_after 5 20) ⊎ (5 ≡ max_duration))
    × (deadline_after 5 20 ≤ deadline_after 9 20)
    × (deadline_after 9 20 ≤ max_duration)
deadline_after-monotone_example =
    deadline_after-monotone 5 9 20 (omega arith) (omega arith) (omega arith) (omega arith)

effective_ttl-positive_example : ltb 0 (effective_ttl (λ _. 0) (pos 20) 4 (pos 0)) ≡ true
effective_ttl-positive_example = effective_ttl-positive (λ _. 0) (pos 20) (pos 0) 4

bucket_id-bounds_example : (23 ≤ bucket_id 10 23 * 10) × (bucket_id 10 23 * 10 < 23 + 10)
bucket_id-bounds_example = bucket_id-bounds 10 23 (omega arith)

new_settings-Positive_example :
    let options = map chosen (Choice.segment_count (pos 8) ∷ Choice.max_entries (pos 3) ∷ []) in
    Positive (new_settings options)
    × ((new_settings options).segment_count ≤ (new_settings options).max_entries)
new_settings-Positive_example =
    new_settings-Positive (Choice.segment_count (pos 8) ∷ Choice.max_entries (pos 3) ∷ [])

abbrev test_ids : ℕ → ℕ
test_ids b = b

-- Two buckets, 4 at the root.
abbrev test_heap : Heap
test_heap = record {
  len = 2;
  slots = λ i. if ltb i 1 then 4 else 6;
  index = λ b. if b == 4 then some 0 else if b == 6 then some 1 else none;
}

test_heap-WellFormed : WellFormed test_ids test_heap
test_heap-WellFormed = record {
  placed = record { positions = λ i lt. ground arith; members = λ b i e. ground arith };
  ordered = λ i low high. ground arith;
}

remove-WellFormed_example :
    WellFormed test_ids (Heap.remove test_ids test_heap 0)
    × Loses test_heap (Heap.remove test_ids test_heap 0) 4
remove-WellFormed_example = remove-WellFormed test_ids test_heap test_heap-WellFormed 4 0 refl

-- The root gets an id after the other.
fix-WellFormed_example :
    WellFormed (λ b. if b == 4 then 9 else b) (Heap.fix (λ b. if b == 4 then 9 else b) test_heap 0)
    × SameBuckets test_heap (Heap.fix (λ b. if b == 4 then 9 else b) test_heap 0)
fix-WellFormed_example =
    fix-WellFormed test_ids (λ b. if b == 4 then 9 else b) test_heap test_heap-WellFormed 4 0 refl
      (λ d ne. ground arith)

abbrev test_order : Lru
test_order = push_front (push_front no_links 1) 2

test_order-InOrder : InOrder test_order (2 ∷ 1 ∷ [])
test_order-InOrder =
    push_front-InOrder (push_front no_links 1) 2
      (push_front-InOrder no_links 1 no_links-InOrder (λ e. ground arith) refl) (λ e. ground arith)
      refl

move_to_front-InOrder_example : InOrder (move_to_front test_order 1) (1 ∷ erase 1 (2 ∷ 1 ∷ []))
move_to_front-InOrder_example = move_to_front-InOrder test_order 1 test_order-InOrder refl

abbrev test_group : Group ℕ ℕ
test_group = record { m = (1, 0) ∷ (2, 1) ∷ []; calls = λ _. new_call; fresh = 2 }
