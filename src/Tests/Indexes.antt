-- ===== src/Tests/Indexes.antt =====
-- An expiration index of expiration.go with two entries in one bucket.
use pacecache.Prelude.{List, ℕ, ◌≡◌, ◌≢◌, ◌<◌, ◌≤◌, refl, true, false, [], ok, arith}
use pacecache.Chain.{Ptr, write}
use pacecache.Expiration.{bucket_id}
use pacecache.Expiration.Heap.{push, append, up}
use pacecache.Prelude.{◌∷◌}
use pacecache.Expiration.Heap.{BucketPtr}
use pacecache.Expiration.Lists.{push_back, blank, BucketLists, no_lists}
use pacecache.Expiration.Lists.Members.{Holds, push_back-Holds, no_lists-Holds}
use pacecache.Expiration.Index.{
  Index, new_expiration_index, acquire_bucket, add, remove, update, has_due_bucket, pop_root_entry,
}
use pacecache.Expiration.Index.Edits.{IsFiled, add-Filed, remove-Filed}
use pacecache.Expiration.Index.Update.{update-Filed}
use pacecache.Expiration.Index.Due.{popped, not_due}
use pacecache.Expiration.Index.Laws.{new-Filed}

abbrev test_index : Index
test_index = add (add (new_expiration_index 10) 7 23) 8 25

abbrev test_deadlines : Ptr → ℕ
test_deadlines = write (write (λ _. 0) 7 23) 8 25

one_filed : IsFiled (add (new_expiration_index 10) 7 23) (write (λ _. 0) 7 23)
one_filed =
    (add-Filed (new_expiration_index 10) (λ _. 0) (λ _. []) (new-Filed 10 (omega arith)) 7 23
      (λ e. ground arith) refl (λ e. ground arith)).0

two_filed : IsFiled test_index test_deadlines
two_filed =
    (add-Filed (add (new_expiration_index 10) 7 23) (write (λ _. 0) 7 23) one_filed.0 one_filed.1 8
      25 (λ e. ground arith) refl (λ e. ground arith)).0

-- The entry leaves the bucket that it shares.
update-Filed_example :
    (j : Index) × (update test_index 7 23 45 ≡ ok j)
    × IsFiled j (write test_deadlines 7 45)
    × (j.resolution_nanos ≡ test_index.resolution_nanos)
update-Filed_example =
    update-Filed test_index test_deadlines two_filed.0 two_filed.1 7 45 (λ e. ground arith)

remove-Filed_example :
    (j : Index) × (remove test_index 7 23 ≡ ok j)
    × IsFiled j (write test_deadlines 7 0)
    × (j.resolution_nanos ≡ test_index.resolution_nanos)
remove-Filed_example =
    remove-Filed test_index test_deadlines two_filed.0 two_filed.1 7 (λ e. ground arith)

due_at_three : has_due_bucket test_index 3 ≡ true
unfolding has_due_bucket add new_expiration_index acquire_bucket push append up push_back blank
    bucket_id
due_at_three = refl

popped_example :
    (p : Ptr) × (j : Index) × (pop_root_entry test_index ≡ ok (p, j))
    × (test_deadlines p ≢ 0)
    × (bucket_id test_index.resolution_nanos (test_deadlines p) ≤ 3)
    × IsFiled j (write test_deadlines p 0)
    × (j.resolution_nanos ≡ test_index.resolution_nanos)
popped_example = popped test_index test_deadlines two_filed.0 two_filed.1 3 due_at_three

not_due_at_two : has_due_bucket test_index 2 ≡ false
unfolding has_due_bucket add new_expiration_index acquire_bucket push append up push_back blank
    bucket_id
not_due_at_two = refl

not_due_example : 2 < bucket_id test_index.resolution_nanos (test_deadlines 7)
not_due_example =
    not_due test_index test_deadlines two_filed.0 two_filed.1 2 not_due_at_two 7 (λ e. ground arith)

abbrev test_lists : BucketLists
test_lists = push_back (push_back no_lists 3 7) 3 8

abbrev test_items : BucketPtr → List Ptr
test_items = write (write (λ _. []) 3 (7 ∷ [])) 3 (7 ∷ 8 ∷ [])

test_lists-Holds : Holds test_lists test_items
test_lists-Holds =
    push_back-Holds (push_back no_lists 3 7) (write (λ _. []) 3 (7 ∷ []))
      (push_back-Holds no_lists (λ _. []) no_lists-Holds 3 7 (λ e. ground arith) (λ c. refl)) 3 8
      (λ e. ground arith) (λ c. ground arith)
