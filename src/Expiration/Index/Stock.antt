-- ===== src/Expiration/Index/Stock.antt =====
-- `acquireBucket` and `releaseBucket` of expiration.go: a bucket leaves the stock, or is allocated,
-- before it is filled, and goes back once it is empty.
use pacecache.Prelude.{
  ℕ, suc, ◌≤◌, ◌≡◌, refl, sym, ap, ◌∙◌, subst, inl, inr, Bool-cases, Option, none, List, [], ◌∷◌,
  arith, leb, length, ◌∈◌, ◌∉◌, Distinct,
}
use pacecache.Chain.{Ptr, write, write_self}
use pacecache.Expiration.Heap.{BucketPtr, Heap}
use pacecache.Expiration.Heap.Order.{parent}
use pacecache.Expiration.Heap.Edits.{WellFormed}
use pacecache.Expiration.Lists.{BucketLists, blank}
use pacecache.Expiration.Lists.Members.{Holds, blank-Holds}
use pacecache.Expiration.Index.{Index, acquire_bucket, release_bucket, max_spare_expiration_buckets}
use pacecache.Expiration.Index.Filed.{Filed, Reserved, inactive-empty}

-- The id of a bucket that is not in the heap counts for nothing.
write-WellFormed :
    (ids : BucketPtr → ℕ) (h : Heap) (b : BucketPtr) (id : ℕ)
    → WellFormed ids h
    → h.index b ≡ none
    → WellFormed (write ids b id) h
write-WellFormed ids h b id w e = record {
  placed = w.placed;
  ordered = λ i low high.
      ground
        (arith, w.ordered i low high, w.placed.positions i high, w.placed.positions (parent i));
}

-- `t` is `s` with a bucket out of the stock, or allocated, that has the id `id`.
pub record Acquired (s t : Index) (m : Ptr → ℕ) (items : BucketPtr → List Ptr) (id : ℕ)
    (b : BucketPtr) : Type 0 where
  pub filed : Filed t m items
  pub reserved : Reserved t b
  pub named : t.ids b ≡ id
  pub buckets : t.buckets ≡ s.buckets
  pub heap : t.heap ≡ s.heap
  pub resolution : t.resolution_nanos ≡ s.resolution_nanos

module _ (s : Index) (m : Ptr → ℕ) (items : BucketPtr → List Ptr) (h : Filed s m items) where
  -- The bucket that `acquireBucket` and `releaseBucket` change, and the stock after that.
  abbrev restocked :
      BucketPtr → (id : ℕ) → BucketLists → (spare : List BucketPtr) → (fresh : BucketPtr) → Index
  restocked b id l sp fr = record s { ids = write s.ids b id; lists = l; spare = sp; fresh = fr }

  restocked-Filed :
      (b : BucketPtr) (id : ℕ) (l : BucketLists) (sp : List BucketPtr) (fr : BucketPtr)
      → s.heap.index b ≡ none
      → Holds l items
      → Distinct sp
      → ((c : BucketPtr) → c ∈ sp → s.heap.index c ≡ none)
      → ((c : BucketPtr) → fr ≤ c → (s.fresh ≤ c) × (c ∉ sp))
      → Filed (restocked b id l sp fr) m items
  restocked-Filed b id l sp fr e holds d spares unused = record {
    resolution = h.resolution;
    lists = holds;
    heap = write-WellFormed s.ids s.heap b id h.heap e;
    mapped = λ c a. ground (arith, h.mapped c);
    active = λ i c a. ground (arith, h.active i c);
    filed = λ q c i. ground (arith, h.filed q c);
    found = h.found;
    filled = h.filled;
    spares = spares;
    spare_distinct = d;
    unused = λ c le. ground (arith, unused c, h.unused c);
  }

  abbrev allocated : (id : ℕ) → (BucketPtr → Option ℕ) → BucketPtr × Index
  allocated id f = (
    s.fresh,
    record s {
      fresh = suc s.fresh;
      ids = write s.ids s.fresh id;
      heap = record s.heap { index = f };
      lists = blank s.lists s.fresh;
    },
  )

  fresh_step :
      (id : ℕ) → s.spare ≡ [] → acquire_bucket s id ≡ allocated id (write s.heap.index s.fresh none)
  unfolding acquire_bucket
  fresh_step id e = ground arith

  spare_step :
      (id : ℕ) (b : BucketPtr) (sp : List BucketPtr)
      → s.spare ≡ (b ∷ sp)
      → acquire_bucket s id ≡ (b, restocked b id s.lists sp s.fresh)
  unfolding acquire_bucket
  spare_step id b sp e = ground arith

  acquire_spare :
      (id : ℕ) (sp : List BucketPtr)
      → s.spare ≡ sp
      → (b : BucketPtr) × (t : Index) × (acquire_bucket s id ≡ (b, t)) × Acquired s t m items id b
  unfolding acquire_bucket
  acquire_spare id [] e = (
    s.fresh,
    restocked s.fresh id (blank s.lists s.fresh) s.spare (suc s.fresh),
    fresh_step id e ∙ ap (allocated id) (write_self s.heap.index s.fresh none inactive),
    record {
      filed =
          restocked-Filed s.fresh id (blank s.lists s.fresh) s.spare (suc s.fresh) inactive
            (blank-Holds s.lists items h.lists s.fresh
              (inactive-empty s m items h s.fresh inactive))
            h.spare_distinct h.spares (λ c le. (omega arith, (h.unused c (omega arith)).1));
      reserved = record {
        inactive = inactive;
        taken = (h.unused s.fresh (omega arith)).1;
        used = omega arith;
      };
      named = ground arith;
      buckets = refl;
      heap = refl;
      resolution = refl;
    },
  )
    where
      inactive : s.heap.index s.fresh ≡ none
      inactive = (h.unused s.fresh (omega arith)).0
  acquire_spare id (b ∷ sp) e = (
    b,
    restocked b id s.lists sp s.fresh,
    spare_step id b sp e,
    record {
      filed =
          restocked-Filed b id s.lists sp s.fresh (here b (ground arith)) h.lists distinct.1
            (λ c i. ground (arith, h.spares c)) (λ c le. (le, ground (arith, h.unused c)));
      reserved = record {
        inactive = here b (ground arith);
        taken = distinct.0;
        used = ground (arith, h.unused b);
      };
      named = ground arith;
      buckets = refl;
      heap = refl;
      resolution = refl;
    },
  )
    where
      here : (c : BucketPtr) → c ∈ (b ∷ sp) → s.heap.index c ≡ none
      here = subst (λ xs. (c : BucketPtr) → c ∈ xs → s.heap.index c ≡ none) e h.spares

      distinct : Distinct (b ∷ sp)
      distinct = subst Distinct e h.spare_distinct

  pub acquire_bucket-Filed :
      (id : ℕ)
      → (b : BucketPtr) × (t : Index) × (acquire_bucket s id ≡ (b, t)) × Acquired s t m items id b
  acquire_bucket-Filed id = acquire_spare id s.spare refl

  pub release_bucket-Filed : (b : BucketPtr) → Reserved s b → Filed (release_bucket s b) m items
  unfolding release_bucket
  release_bucket-Filed b r = elim (Bool-cases (leb max_spare_expiration_buckets (length s.spare))) [
    | inl e ↦
        rw (e, release_bucket)
          (subst
            (λ f.
              Filed
                (record s {
                  ids = write s.ids b 0;
                  heap = record s.heap { index = f };
                  lists = blank s.lists b;
                })
                m items)
            (sym (write_self s.heap.index b none r.inactive))
            (restocked-Filed b 0 (blank s.lists b) s.spare s.fresh r.inactive blanked
              h.spare_distinct h.spares (λ c le. (le, (h.unused c le).1))))
    | inr e ↦
        rw (e, release_bucket)
          (subst
            (λ f.
              Filed
                (record s {
                  ids = write s.ids b 0;
                  heap = record s.heap { index = f };
                  lists = blank s.lists b;
                  spare = b ∷ s.spare;
                })
                m items)
            (sym (write_self s.heap.index b none r.inactive))
            (restocked-Filed b 0 (blank s.lists b) (b ∷ s.spare) s.fresh r.inactive blanked
              (r.taken, h.spare_distinct) (λ c i. ground (arith, h.spares c))
              (λ c le. (le, ground (arith, h.unused c)))))
  ]
    where
      blanked : Holds (blank s.lists b) items
      blanked = blank-Holds s.lists items h.lists b (inactive-empty s m items h b r.inactive)
