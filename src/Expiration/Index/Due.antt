-- ===== src/Expiration/Index/Due.antt =====
-- `hasDueBucket`, `popRootEntry` and `reset` of the index of expiration.go: the root of the heap is
-- the earliest bucket, and a reset gives every bucket back.
use pacecache.Prelude.{
  ℕ, ◌≤◌, ◌<◌, ◌≡◌, ◌≢◌, refl, inl, inr, true, false, Option-cases, none, some, List, ok, arith,
  erase,
}
use pacecache.Chain.{Ptr, write}
use pacecache.Expiration.{bucket_id}
use pacecache.Expiration.Heap
use pacecache.Expiration.Heap.{BucketPtr, Heap}
use pacecache.Expiration.Heap.Edits.{pop-WellFormed}
use pacecache.Expiration.Heap.Fix.{root-least}
use pacecache.Expiration.Lists.{BucketLists, pop_back}
use pacecache.Expiration.Lists.Members.{pop_back-Holds}
use pacecache.Expiration.Index.{Index, release_bucket, has_due_bucket, pop_root_entry}
use pacecache.Expiration.Index.Filed.{Filed, bucket_of, left-Filed, emptied-Filed}
use pacecache.Expiration.Index.Stock.{release_bucket-Filed}
use pacecache.Expiration.Index.Edits.{IsFiled, List-cases, release_bucket-resolution}

module _ (s : Index) (m : Ptr → ℕ) (items : BucketPtr → List Ptr) (h : Filed s m items) where
  root : BucketPtr
  root = s.heap.slots 0

  due_root : (due : ℕ) → has_due_bucket s due ≡ true → (0 < s.heap.len) × (s.ids root ≤ due)
  unfolding has_due_bucket root
  due_root due e = ground arith

  active_root : 0 < s.heap.len → s.heap.index root ≡ some 0
  unfolding root
  active_root l = h.heap.placed.positions 0 l

  -- The bucket of an entry is not before the root.
  root-earliest :
      (p : Ptr) → m p ≢ 0 → (0 < s.heap.len) × (s.ids root ≤ bucket_id s.resolution_nanos (m p))
  unfolding root
  root-earliest p ne =
      let (b, inside, e, act) = bucket_of s m items h p ne in
      elim (Option-cases (s.heap.index b)) [
        | inl z ↦ absurd (act z)
        | inr (i, at) ↦ ground (
          arith,
          h.heap.placed.members b i at,
          h.filed p b inside,
          root-least s.ids s.heap h.heap i i,
        )
      ]

  -- If an index that files its entries under their deadlines has no due bucket, then the bucket of
  -- every filed entry is after the due one.
  pub not_due :
      (due : ℕ)
      → has_due_bucket s due ≡ false
      → (p : Ptr) → m p ≢ 0
      → due < bucket_id s.resolution_nanos (m p)
  unfolding has_due_bucket root
  not_due due e p ne = ground (arith, root-earliest p ne)

  module _ (due : ℕ) (ready : has_due_bucket s due ≡ true) where
    keep_step :
        (p : Ptr) (l : BucketLists)
        → pop_back s.lists root ≡ ok (l, some p)
        → l.counts root ≢ 0
        → pop_root_entry s ≡ ok (p, record s { lists = l })
    unfolding pop_root_entry root
    keep_step p l eq ne = ground (arith, due_root due ready)

    drop_step :
        (p : Ptr) (l : BucketLists)
        → pop_back s.lists root ≡ ok (l, some p)
        → l.counts root ≡ 0
        → pop_root_entry s
          ≡ ok (
            p,
            release_bucket
                (record s {
                  lists = l;
                  buckets = write s.buckets (s.ids root) none;
                  heap = Heap.pop s.ids s.heap;
                })
                root,
          )
    unfolding pop_root_entry root
    drop_step p l eq z = ground (arith, due_root due ready)

    -- On an index that files its entries under their deadlines and that has a due bucket, the pop
    -- succeeds and yields a filed entry whose bucket is due; that entry is filed no longer, the
    -- other entries are, and the resolution stays.
    pub popped :
        (p : Ptr) × (j : Index) × (pop_root_entry s ≡ ok (p, j))
        × (m p ≢ 0)
        × (bucket_id s.resolution_nanos (m p) ≤ due)
        × IsFiled j (write m p 0)
        × (j.resolution_nanos ≡ s.resolution_nanos)
    unfolding root
    popped =
        let (some_bucket, early) = due_root due ready in
        let act : s.heap.index root ≢ none = ground (arith, active_root some_bucket) in
        let (p, l, eq, inside, holds) =
          pop_back-Holds s.lists items h.lists root (h.filled root act) in
        let (_, ne, named) = h.filed p root inside in
        elim (List-cases (erase p (items root))) [
          | inl alone ↦
              let (w, loses) = pop-WellFormed s.ids s.heap h.heap some_bucket in
              let t = record s {
                lists = l;
                buckets = write s.buckets (s.ids root) none;
                heap = Heap.pop s.ids s.heap;
              } in
              let (f, r) =
                emptied-Filed s m items h t root p inside alone refl (λ c. refl) refl refl
                  (λ c. refl) loses.absent loses.others w holds in
              (
                p,
                release_bucket t root,
                drop_step p l eq (ground (arith, holds.count root, alone)),
                ne,
                omega (arith, early, named),
                (
                  write items root (erase p (items root)),
                  release_bucket-Filed t (write m p 0) (write items root (erase p (items root))) f
                      root r,
                ),
                release_bucket-resolution t root,
              )
          | inr rest ↦ (
            p,
            record s { lists = l },
            keep_step p l eq (ground (arith, holds.count root, rest)),
            ne,
            omega (arith, early, named),
            (
              write items root (erase p (items root)),
              left-Filed s m items h s root p l inside rest holds,
            ),
            refl,
          )
        ]
