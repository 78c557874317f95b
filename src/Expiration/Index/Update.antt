-- ===== src/Expiration/Index/Update.antt =====
-- `update` of the index of expiration.go, with `rekeySingletonBucket`: an entry changes its bucket, or
-- its bucket changes its id.
use pacecache.Prelude.{
  ℕ, ◌≡◌, ◌≢◌, ◌⊎◌, refl, sym, ◌∙◌, subst, inl, inr, true, false, Bool-cases, Option-cases, none,
  some, List, [], ◌∷◌, ok, arith, ◌==◌, length, ◌∈◌, ==_iff,
}
use pacecache.Chain.{Ptr, nil, write, write-write, write_self}
use pacecache.Expiration.{bucket_id}
use pacecache.Expiration.Heap
use pacecache.Expiration.Heap.{BucketPtr, Heap}
use pacecache.Expiration.Heap.Fix.{fix-WellFormed}
use pacecache.Expiration.Lists.{contains_only}
use pacecache.Expiration.Index.{Index, add, rekey_singleton_bucket, update}
use pacecache.Expiration.Index.Filed.{Filed, bucket_of, moved-Filed}
use pacecache.Expiration.Index.Edits.{IsFiled, add-Filed, remove-Filed}

module _ (s : Index) (m : Ptr → ℕ) (items : BucketPtr → List Ptr) (h : Filed s m items)
    (p : Ptr) where
  -- A bucket that has one entry has no other.
  singleton :
      (b : BucketPtr)
      → contains_only s.lists b p ≡ true
      → p ∈ items b
      → (q : Ptr) → q ∈ items b
      → q ≡ p
  unfolding contains_only
  singleton b e i q j = one (items b) (ground (arith, h.lists.count b)) i j
    where
      one : (xs : List Ptr) → length xs ≡ 1 → p ∈ xs → q ∈ xs → q ≡ p
      one [] l a c = ground arith
      one (x ∷ []) l a c = ground arith
      one (x ∷ y ∷ xs) l a c = ground arith

  module _ (d : ℕ) (b : BucketPtr) (i : ℕ) where
    abbrev rekeyed : Index
    rekeyed =
        let new_id = bucket_id s.resolution_nanos d in
        let new_ids = write s.ids b new_id in
        record s {
          buckets =
              write (write s.buckets (bucket_id s.resolution_nanos (m p)) none) new_id (some b);
          ids = new_ids;
          heap = Heap.fix new_ids s.heap i;
        }

    rekeyed-Filed :
        d ≢ 0
        → m p ≢ 0
        → p ∈ items b
        → contains_only s.lists b p ≡ true
        → s.buckets (bucket_id s.resolution_nanos d) ≡ none
        → s.buckets (bucket_id s.resolution_nanos (m p)) ≡ some b
        → s.heap.index b ≡ some i
        → Filed rekeyed (write m p d) items
    rekeyed-Filed later now inside only new old at =
        let (w, same) =
          fix-WellFormed s.ids rekeyed.ids s.heap h.heap b i at (λ c ne. ground arith) in
        record {
          resolution = h.resolution;
          lists = h.lists;
          heap = w;
          mapped = λ c a. ground (
            arith,
            same.same c,
            h.mapped c,
            h.active (bucket_id s.resolution_nanos (m p)) b old,
            new,
          );
          active = λ id c a. ground (
            arith,
            same.same c,
            h.active id c,
            h.active id b,
            h.active (bucket_id s.resolution_nanos (m p)) b old,
            at,
          );
          filed = λ q c j. ground (
            arith,
            same.same c,
            h.filed q c j,
            singleton b only inside q,
            h.lists.disjoint p b c,
            at,
          );
          found = λ q z. elim (Bool-cases (q == p)) [
            | inl e ↦ (b, ground arith)
            | inr e ↦ h.found q (ground (arith, z))
          ];
          filled = λ c a. ground (arith, same.same c, h.filled c);
          spares = λ c j. ground (arith, same.same c, h.spares c);
          spare_distinct = h.spare_distinct;
          unused = λ c le. ground (arith, same.same c, h.unused c);
        }

  module _ (d : ℕ) (later : d ≢ 0) (now : m p ≢ 0) where
    old_id : ℕ
    old_id = bucket_id s.resolution_nanos (m p)

    new_id : ℕ
    new_id = bucket_id s.resolution_nanos d

    rekey_step :
        (b : BucketPtr) (i : ℕ)
        → s.buckets new_id ≡ none
        → s.buckets old_id ≡ some b
        → s.heap.index b ≡ some i
        → contains_only s.lists b p ≡ true
        → rekey_singleton_bucket s p old_id new_id ≡ some (rekeyed d b i)
    unfolding rekey_singleton_bucket old_id new_id
    rekey_step b i new old at only = ground arith

    other_step :
        (b : BucketPtr)
        → s.buckets old_id ≡ some b
        → contains_only s.lists b p ≡ false
        → rekey_singleton_bucket s p old_id new_id ≡ none
    unfolding rekey_singleton_bucket
    other_step b old only = ground arith

    taken_step :
        (c : BucketPtr)
        → s.buckets new_id ≡ some c
        → rekey_singleton_bucket s p old_id new_id ≡ none
    unfolding rekey_singleton_bucket
    taken_step c new = ground arith

    -- The bucket takes the new id, or nothing happens.
    rekey-Filed :
        (rekey_singleton_bucket s p old_id new_id ≡ none)
        ⊎ ((t : Index) × (rekey_singleton_bucket s p old_id new_id ≡ some t)
            × IsFiled t (write m p d)
            × (t.resolution_nanos ≡ s.resolution_nanos))
    unfolding old_id new_id
    rekey-Filed =
        let (b, inside, e, act) = bucket_of s m items h p now in
        elim (Option-cases (s.buckets new_id)) [
          | inr (c, new) ↦ inl (taken_step c new)
          | inl new ↦ elim (Bool-cases (contains_only s.lists b p)) [
            | inr only ↦ inl (other_step b e only)
            | inl only ↦ elim (Option-cases (s.heap.index b)) [
              | inl z ↦ absurd (act z)
              | inr (i, at) ↦ inr (
                rekeyed d b i,
                rekey_step b i new e at only,
                (items, rekeyed-Filed d b i later now inside only new e at),
                refl,
              )
            ]
          ]
        ]

    -- An entry that changes its deadline.
    moved :
        p ≢ nil
        → (m p == d) ≡ false
        → (j : Index) × (update s p (m p) d ≡ ok j)
          × IsFiled j (write m p d)
          × (j.resolution_nanos ≡ s.resolution_nanos)
    unfolding update old_id new_id
    moved proper other = elim (Bool-cases (old_id == new_id)) [
      | inl e ↦ (
        s,
        ground (arith, h.resolution),
        (items, moved-Filed s m items h p d later now (ground arith)),
        refl,
      )
      | inr e ↦ elim rekey-Filed [
        | inr (t, eq, f, r) ↦ (t, ground (arith, h.resolution, e, eq), f, r)
        | inl eq ↦
            let (j, req, (xs, f), r) = remove-Filed s m items h p now in
            let (g, q) = add-Filed j (write m p 0) xs f p d proper (ground arith) later in
            (
              add j p d,
              ground (arith, h.resolution, e, eq, req),
              subst (IsFiled (add j p d)) (sym (write-write m p 0 d)) g,
              q ∙ r,
            )
      ]
    ]

  -- On an index that files its entries under their deadlines, an update of an entry that is not nil
  -- succeeds, files that entry under the new deadline, leaves the other entries where they are, and
  -- keeps the resolution.
  pub update-Filed :
      (d : ℕ)
      → p ≢ nil
      → (j : Index) × (update s p (m p) d ≡ ok j)
        × IsFiled j (write m p d)
        × (j.resolution_nanos ≡ s.resolution_nanos)
  unfolding update
  update-Filed d proper = elim (Bool-cases (m p == d)) [
    | inl e ↦ (
      s,
      ground (arith, h.resolution),
      (items, subst (λ f. Filed s f items) (sym (write_self m p d ((==_iff (m p) d).0 e))) h),
      refl,
    )
    | inr e ↦ elim (Bool-cases (d == 0)) [
      | inl z ↦
          let (j, req, f, r) = remove-Filed s m items h p (ground arith) in
          (
            j,
            ground (arith, h.resolution, e, z, req),
            subst (λ t. IsFiled j (write m p t)) (sym ((==_iff d 0).0 z)) f,
            r,
          )
      | inr z ↦ elim (Bool-cases (m p == 0)) [
        | inl o ↦
            let (g, q) = add-Filed s m items h p d proper (ground arith) (ground arith) in
            (add s p d, ground (arith, h.resolution, e, z, o), g, q)
        | inr o ↦ moved d (ground arith) (ground arith) proper e
      ]
    ]
  ]
