-- ===== src/Expiration/Index.antt =====
-- `expirationIndex` of expiration.go: buckets of entries by deadline, found by id in a map and by
-- order in a heap, with a small stock of spare buckets.
pub mod Filed
pub mod Stock
pub mod Edits
pub mod Update
pub mod Due
pub mod Reset
pub mod Laws
use pacecache.Prelude.{
  ℕ, zero, suc, ◌+◌, ◌-◌, Bool, true, false, not, Option, none, some, List, [], ◌∷◌, Result, ok,
  panic, ◌>>=◌, ltb, leb, ◌==◌, ◌!=◌, ◌&&◌, ◌||◌, if◌then◌else◌, length,
}
use pacecache.Chain.{Ptr, nil, write}
use pacecache.Expiration.{IndexOps, bucket_id}
use pacecache.Expiration.Heap
use pacecache.Expiration.Heap.{BucketPtr, Heap}
use pacecache.Expiration.Lists
use pacecache.Expiration.Lists.{BucketLists, no_lists, contains_only, push_back, pop_back, blank}

abbrev pub max_spare_expiration_buckets : ℕ
max_spare_expiration_buckets = 4

-- `ids` is the field `id` of the buckets. `spare` is `spareBuckets[:spareCount]`, its last bucket
-- first, and `fresh` the next address that an allocation of a bucket returns.
pub record Index : Type 0 where
  pub resolution_nanos : ℕ
  pub buckets : ℕ → Option BucketPtr
  pub heap : Heap
  pub ids : BucketPtr → ℕ
  pub lists : BucketLists
  pub spare : List BucketPtr
  pub fresh : BucketPtr

unfoldable pub new_expiration_index : (resolution : ℕ) → Index
new_expiration_index resolution = record {
  resolution_nanos = resolution;
  buckets = λ _. none;
  heap = record { len = 0; slots = λ _. 0; index = λ _. none };
  ids = λ _. 0;
  lists = no_lists;
  spare = [];
  fresh = 0;
}

abbrev pub is_enabled : Index → Bool
is_enabled s = ltb 0 s.resolution_nanos

-- A new bucket has no entries and no position.
unfoldable pub acquire_bucket : Index → (id : ℕ) → BucketPtr × Index
acquire_bucket s id = elim s.spare [
  | [] ↦ (
    s.fresh,
    record s {
      fresh = suc s.fresh;
      ids = write s.ids s.fresh id;
      heap = record s.heap { index = write s.heap.index s.fresh none };
      lists = blank s.lists s.fresh;
    },
  )
  | bucket ∷ rest ↦ (bucket, record s { spare = rest; ids = write s.ids bucket id })
]

unfoldable pub release_bucket : Index → BucketPtr → Index
release_bucket s bucket =
    let s1 = record s {
      ids = write s.ids bucket 0;
      heap = record s.heap { index = write s.heap.index bucket none };
      lists = blank s.lists bucket;
    } in
    if leb max_spare_expiration_buckets (length s1.spare)
    then s1
    else record s1 { spare = bucket ∷ s1.spare }

-- A bucket with no position makes heap.Remove index the slice at -1.
unfoldable pub deactivate_bucket : Index → BucketPtr → Result Index
deactivate_bucket s bucket =
    let s1 = record s { buckets = write s.buckets (s.ids bucket) none } in
    elim (s1.heap.index bucket) [
      | none ↦ panic
      | some i ↦ ok (record s1 { heap = Heap.remove s1.ids s1.heap i })
    ]

unfoldable pub add : Index → Ptr → (deadline : ℕ) → Index
add s item deadline =
    if not (is_enabled s) || (deadline == 0)
    then s
    else let id = bucket_id s.resolution_nanos deadline in
      elim (s.buckets id) [
        | some bucket ↦ record s { lists = push_back s.lists bucket item }
        | none ↦
            let (bucket, s1) = acquire_bucket s id in
            let s2 = record s1 { buckets = write s1.buckets id (some bucket) } in
            let s3 = record s2 { heap = Heap.push s2.ids s2.heap bucket } in
            record s3 { lists = push_back s3.lists bucket item }
      ]

unfoldable pub remove : Index → Ptr → (deadline : ℕ) → Result Index
remove s item deadline =
    if not (is_enabled s) || (deadline == 0)
    then ok s
    else elim (s.buckets (bucket_id s.resolution_nanos deadline)) [
      | none ↦ panic
      | some bucket ↦ do
        lists ← Lists.remove s.lists bucket item
        let s1 = record s { lists = lists }
        if s1.lists.counts bucket == 0
            then (do s2 ← deactivate_bucket s1 bucket; ok (release_bucket s2 bucket))
            else ok s1
    ]

-- `none` is the result false.
unfoldable pub rekey_singleton_bucket : Index → Ptr → (old_id new_id : ℕ) → Option Index
rekey_singleton_bucket s item old_id new_id = elim (s.buckets new_id) [
  | some _ ↦ none
  | none ↦ elim (s.buckets old_id) [
    | none ↦ none
    | some bucket ↦ elim (s.heap.index bucket) [
      | none ↦ none
      | some i ↦
          if not (contains_only s.lists bucket item)
          then none
          else let s1 = record s { buckets = write s.buckets old_id none } in
            let s2 = record s1 { ids = write s1.ids bucket new_id } in
            let s3 = record s2 { buckets = write s2.buckets new_id (some bucket) } in
            some (record s3 { heap = Heap.fix s3.ids s3.heap i })
    ]
  ]
]

unfoldable pub update : Index → Ptr → (old deadline : ℕ) → Result Index
update s item old deadline =
    if not (is_enabled s)
    then ok s
    else if old == deadline
    then ok s
    else if deadline == 0
    then remove s item old
    else if old == 0
    then ok (add s item deadline)
    else let old_id = bucket_id s.resolution_nanos old in
      let new_id = bucket_id s.resolution_nanos deadline in
      if old_id == new_id then ok s else elim (rekey_singleton_bucket s item old_id new_id) [
        | some s' ↦ ok s'
        | none ↦ do s1 ← remove s item old; ok (add s1 item deadline)
      ]

-- `for _, bucket := range active`, the first `n` slots of the old heap.
unfoldable pub release_all : (n : ℕ) → (active : ℕ → BucketPtr) → Index → Index
release_all zero active s = s
release_all (suc n) active s = release_bucket (release_all n active s) (active n)

unfoldable pub reset : Index → Index
reset s =
    if not (is_enabled s)
    then s
    else release_all s.heap.len s.heap.slots
        (record s { buckets = λ _. none; heap = record s.heap { len = 0 } })

unfoldable pub has_due_bucket : Index → (due_bucket : ℕ) → Bool
has_due_bucket s due = (s.heap.len != 0) && leb (s.ids (s.heap.slots 0)) due

unfoldable pub pop_root_entry : Index → Result (Ptr × Index)
pop_root_entry s =
    if s.heap.len == 0
    then panic
    else let bucket = s.heap.slots 0 in
      do
        (lists, item) ← pop_back s.lists bucket
        let s1 = record s { lists = lists }
        elim item [
          | none ↦ panic
          | some p ↦
              if s1.lists.counts bucket == 0
              then ok (
                p,
                release_bucket
                    (record s1 {
                      buckets = write s1.buckets (s1.ids bucket) none;
                      heap = Heap.pop s1.ids s1.heap;
                    })
                    bucket,
              )
              else ok (p, s1)
        ]

abbrev pub index_ops : IndexOps
index_ops = record {
  State = Index;
  resolution = λ s. s.resolution_nanos;
  create = new_expiration_index;
  update = update;
  remove = remove;
  reset = reset;
  has_due_bucket = has_due_bucket;
  pop_root_entry = pop_root_entry;
}
