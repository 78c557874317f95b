-- ===== src/Expiration/Index/Edits.antt =====
-- `add` and `remove` of the index of expiration.go: the invariant is kept, and the deadline of one
-- entry changes.
use pacecache.Prelude.{
  ℕ, ◌≡◌, ◌≢◌, ◌⊎◌, refl, sym, ap, inl, inr, Option-cases, none, some, List, [], ◌∷◌, ◌++◌, ok,
  arith, erase,
}
use pacecache.Chain.{Ptr, nil, write}
use pacecache.Expiration.{bucket_id}
use pacecache.Expiration.Heap
use pacecache.Expiration.Heap.{BucketPtr, Heap}
use pacecache.Expiration.Heap.Edits.{push-WellFormed, remove-WellFormed}
use pacecache.Expiration.Lists
use pacecache.Expiration.Lists.{BucketLists, push_back}
use pacecache.Expiration.Lists.Members.{push_back-Holds, remove-Holds}
use pacecache.Expiration.Index.{
  Index, acquire_bucket, release_bucket, deactivate_bucket, add, remove,
}
use pacecache.Expiration.Index.Filed.{
  Filed, unfiled, bucket_of, joined-Filed, left-Filed, emptied-Filed,
}
use pacecache.Expiration.Index.Stock.{Acquired, acquire_bucket-Filed, release_bucket-Filed}

-- Some lists of entries make `Filed` hold.
abbrev pub IsFiled : Index → (Ptr → ℕ) → Type 0
IsFiled s m = (items : BucketPtr → List Ptr) × Filed s m items

pub List-cases : (xs : List Ptr) → (xs ≡ []) ⊎ (xs ≢ [])
List-cases [] = inl refl
List-cases (x ∷ xs) = inr (λ e. ground arith)

pub release_bucket-resolution :
    (s : Index) (b : BucketPtr) → (release_bucket s b).resolution_nanos ≡ s.resolution_nanos
unfolding release_bucket
release_bucket-resolution s b = ground arith

module _ (s : Index) (m : Ptr → ℕ) (items : BucketPtr → List Ptr) (h : Filed s m items)
    (p : Ptr) where
  module _ (d : ℕ) (proper : p ≢ nil) (new : m p ≡ 0) (later : d ≢ 0) where
    id : ℕ
    id = bucket_id s.resolution_nanos d

    add_known :
        (b : BucketPtr)
        → s.buckets id ≡ some b
        → IsFiled (record s { lists = push_back s.lists b p }) (write m p d)
    unfolding id
    add_known b e =
        let (act, named) = h.active id b e in
        (
          write items b (items b ++ p ∷ []),
          joined-Filed s m items h (record s { lists = push_back s.lists b p }) b p d later proper
              new (sym named) (ground (arith, h.spares b)) (ground (arith, h.unused b)) refl
              (λ c. refl) refl refl (λ i. ground (arith, e, named))
              (λ c z. ground (arith, e, named)) act (λ c ne. (λ z. z, λ z. z)) h.heap
              (push_back-Holds s.lists items h.lists b p proper (unfiled s m items h p new)),
        )

    add_acquired :
        (t : Index) (b : BucketPtr)
        → s.buckets id ≡ none
        → Acquired s t m items id b
        → IsFiled
            (record t {
              buckets = write t.buckets id (some b);
              heap = Heap.push t.ids t.heap b;
              lists = push_back t.lists b p;
            })
            (write m p d)
    unfolding id
    add_acquired t b e a =
        let (w, g) = push-WellFormed t.ids t.heap a.filed.heap b a.reserved.inactive in
        (
          write items b (items b ++ p ∷ []),
          joined-Filed t m items a.filed
              (record t {
                buckets = write t.buckets id (some b);
                heap = Heap.push t.ids t.heap b;
                lists = push_back t.lists b p;
              })
              b p d later proper new (rw a.resolution (sym a.named)) a.reserved.taken
              a.reserved.used refl (λ c. refl) refl refl (λ i. rw a.named refl)
              (λ c z. ground (arith, e, z, ap (λ f. f id) a.buckets, a.named)) g.present g.others w
              (push_back-Holds t.lists items a.filed.lists b p proper
                (unfiled t m items a.filed p new)),
        )

    known_step :
        (b : BucketPtr)
        → s.buckets id ≡ some b
        → add s p d ≡ record s { lists = push_back s.lists b p }
    unfolding add id
    known_step b e = ground (arith, h.resolution)

    acquired_step :
        (t : Index) (b : BucketPtr)
        → s.buckets id ≡ none
        → acquire_bucket s id ≡ (b, t)
        → add s p d ≡ record t {
          buckets = write t.buckets id (some b);
          heap = Heap.push t.ids t.heap b;
          lists = push_back t.lists b p;
        }
    unfolding add id
    acquired_step t b e eq = ground (arith, h.resolution)

    -- An entry that was not filed is filed under the deadline.
    pub add-Filed :
        IsFiled (add s p d) (write m p d) × ((add s p d).resolution_nanos ≡ s.resolution_nanos)
    add-Filed = elim (Option-cases (s.buckets id)) [
      | inl e ↦
          let (b, t, eq, a) = acquire_bucket-Filed s m items h id in
          rw (acquired_step t b e eq) (add_acquired t b e a, a.resolution)
      | inr (b, e) ↦ rw (known_step b e) (add_known b e, refl)
    ]

  -- An entry that was filed is no longer.
  module _ (filed_now : m p ≢ 0) where
    keep_step :
        (b : BucketPtr) (l : BucketLists)
        → s.buckets (bucket_id s.resolution_nanos (m p)) ≡ some b
        → Lists.remove s.lists b p ≡ ok l
        → l.counts b ≢ 0
        → remove s p (m p) ≡ ok (record s { lists = l })
    unfolding remove
    keep_step b l e eq ne = ground (arith, h.resolution)

    drop_step :
        (b : BucketPtr) (l : BucketLists) (i : ℕ)
        → s.buckets (bucket_id s.resolution_nanos (m p)) ≡ some b
        → Lists.remove s.lists b p ≡ ok l
        → l.counts b ≡ 0
        → s.heap.index b ≡ some i
        → remove s p (m p)
          ≡ ok (
              release_bucket
                (record s {
                  lists = l;
                  buckets = write s.buckets (s.ids b) none;
                  heap = Heap.remove s.ids s.heap i;
                })
                b)
    unfolding remove deactivate_bucket
    drop_step b l i e eq z at = ground (arith, h.resolution)

    -- On an index that files its entries under their deadlines, the removal of a filed entry under
    -- its deadline succeeds: that entry is filed no longer, the other entries are, and the
    -- resolution stays.
    pub remove-Filed :
        (j : Index) × (remove s p (m p) ≡ ok j)
        × IsFiled j (write m p 0)
        × (j.resolution_nanos ≡ s.resolution_nanos)
    remove-Filed =
        let (b, inside, e, act) = bucket_of s m items h p filed_now in
        let (l, eq, holds) = remove-Holds s.lists items h.lists b p inside in
        elim (List-cases (erase p (items b))) [
          | inl alone ↦ elim (Option-cases (s.heap.index b)) [
            | inl z ↦ absurd (act z)
            | inr (i, at) ↦
                let (w, loses) = remove-WellFormed s.ids s.heap h.heap b i at in
                let t = record s {
                  lists = l;
                  buckets = write s.buckets (s.ids b) none;
                  heap = Heap.remove s.ids s.heap i;
                } in
                let (f, r) =
                  emptied-Filed s m items h t b p inside alone refl (λ c. refl) refl refl
                    (λ c. refl) loses.absent loses.others w holds in
                (
                  release_bucket t b,
                  drop_step b l i e eq (ground (arith, holds.count b, alone)) at,
                  (
                    write items b (erase p (items b)),
                    release_bucket-Filed t (write m p 0) (write items b (erase p (items b))) f b r,
                  ),
                  release_bucket-resolution t b,
                )
          ]
          | inr rest ↦ (
            record s { lists = l },
            keep_step b l e eq (ground (arith, holds.count b, rest)),
            (write items b (erase p (items b)), left-Filed s m items h s b p l inside rest holds),
            refl,
          )
        ]
