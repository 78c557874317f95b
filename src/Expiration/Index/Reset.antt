-- ===== src/Expiration/Index/Reset.antt =====
-- `reset` of the index of expiration.go: every bucket of the heap is released, and no entry is filed.
use pacecache.Prelude.{
  ℕ, zero, suc, ◌≤◌, ◌<◌, ◌≡◌, ◌⊎◌, refl, ap, inl, inr, Bool-cases, Option-cases, none, some, List,
  [], arith, ◌==◌, ◌∈◌, ◌∉◌, Distinct,
}
use pacecache.Chain.{Ptr, nil}
use pacecache.Expiration.Heap.{BucketPtr}
use pacecache.Expiration.Lists.{BucketLists, blank}
use pacecache.Expiration.Index.{Index, release_bucket, release_all, reset}
use pacecache.Expiration.Index.Filed.{Filed, inactive-empty}

abbrev IsBlank : BucketLists → BucketPtr → Type 0
IsBlank l b = (l.heads b ≡ nil) × (l.tails b ≡ nil) × (l.counts b ≡ 0)

-- The first `n` of the buckets `slots` are released.
record Released (n len : ℕ) (slots : ℕ → BucketPtr) (t : Index) : Type 0 where
  emptied : t.heap.len ≡ 0
  unmapped : (id : ℕ) → t.buckets id ≡ none
  rest : (i : ℕ) → n ≤ i → i < len → t.heap.index (slots i) ≡ some i
  each :
      (b : BucketPtr)
      → ((t.heap.index b ≡ none) × IsBlank t.lists b)
        ⊎ ((i : ℕ) × (n ≤ i) × (i < len) × (t.heap.index b ≡ some i) × (slots i ≡ b))
  spares : (b : BucketPtr) → b ∈ t.spare → t.heap.index b ≡ none
  spare_distinct : Distinct t.spare
  unused : (b : BucketPtr) → t.fresh ≤ b → (t.heap.index b ≡ none) × (b ∉ t.spare)

module _ (len : ℕ) (slots : ℕ → BucketPtr) where
  Released-next :
      (n : ℕ) (t : Index)
      → n < len
      → Released n len slots t
      → Released (suc n) len slots (release_bucket t (slots n))
  unfolding release_bucket blank
  Released-next n t lt r = record {
    emptied = ground (arith, r.emptied);
    unmapped = λ id. ground (arith, r.unmapped id);
    rest = λ i le high. ground (arith, r.rest i, r.rest n);
    each = λ b. elim (Bool-cases (b == slots n)) [
      | inl e ↦ inl (ground arith, (ground arith, ground arith, ground arith))
      | inr e ↦ elim (r.each b) [
        | inl (z, clear) ↦ inl (ground arith, (ground arith, ground arith, ground arith))
        | inr (i, low, high, at, here) ↦ inr (i, ground arith, high, ground arith, here)
      ]
    ];
    spares = λ b i. ground (arith, r.spares b);
    spare_distinct = ground (arith, r.spare_distinct, r.spares (slots n), r.rest n);
    unused = λ b le. ground (arith, r.unused b, r.rest n);
  }

  Released-all :
      (n : ℕ) (t : Index)
      → n ≤ len
      → Released 0 len slots t
      → Released n len slots (release_all n slots t)
  unfolding release_all
  Released-all zero t le r = r
  Released-all (suc n) t le r =
      Released-next n (release_all n slots t) le (Released-all n t (omega arith) r)

  release_all-resolution :
      (n : ℕ) (t : Index) → (release_all n slots t).resolution_nanos ≡ t.resolution_nanos
  unfolding release_all release_bucket
  release_all-resolution zero t = refl
  release_all-resolution (suc n) t = ground (arith, release_all-resolution n t)

  -- With all of them released, nothing is filed.
  Released-Filed :
      (t : Index) → 0 < t.resolution_nanos → Released len len slots t → Filed t (λ _. 0) (λ _. [])
  Released-Filed t positive r = record {
    resolution = positive;
    lists = record {
      ring = λ b. record { chain = ground (arith, none_left b); proper = refl; distinct = tt };
      count = λ b. ground (arith, none_left b);
      disjoint = λ p b c i j. ground arith;
    };
    heap = record {
      placed = record {
        positions = λ i lt. ground (arith, r.emptied);
        members = λ b i e. ground (arith, none_left b);
      };
      ordered = λ i low high. ground (arith, r.emptied);
    };
    mapped = λ b a. absurd (a (none_left b).0);
    active = λ id b e. ground (arith, r.unmapped id);
    filed = λ p b i. ground arith;
    found = λ p ne. absurd (ne refl);
    filled = λ b a. absurd (a (none_left b).0);
    spares = r.spares;
    spare_distinct = r.spare_distinct;
    unused = r.unused;
  }
    where
      none_left : (b : BucketPtr) → (t.heap.index b ≡ none) × IsBlank t.lists b
      none_left b = elim (r.each b) [
        | inl z ↦ z
        | inr (i, low, high, at, here) ↦ absurd (omega arith)
      ]

module _ (s : Index) (m : Ptr → ℕ) (items : BucketPtr → List Ptr) (h : Filed s m items) where
  detached : Index
  detached = record s { buckets = λ _. none; heap = record s.heap { len = 0 } }

  detached-Released : Released 0 s.heap.len s.heap.slots detached
  unfolding detached
  detached-Released = record {
    emptied = refl;
    unmapped = λ id. refl;
    rest = λ i low high. h.heap.placed.positions i high;
    each = λ b. elim (Option-cases (s.heap.index b)) [
      | inl e ↦
          inl (
            e,
            ground (arith, (h.lists.ring b).chain, h.lists.count b, inactive-empty s m items h b),
          )
      | inr (i, e) ↦
          let (high, here) = h.heap.placed.members b i e in inr (i, omega arith, high, e, here)
    ];
    spares = h.spares;
    spare_distinct = h.spare_distinct;
    unused = h.unused;
  }

  reset_step : reset s ≡ release_all s.heap.len s.heap.slots detached
  unfolding reset detached
  reset_step = ground (arith, h.resolution)

  pub reset-resolution : (reset s).resolution_nanos ≡ s.resolution_nanos
  unfolding detached
  reset-resolution =
      rw reset_step (release_all-resolution s.heap.len s.heap.slots s.heap.len detached)

  -- A reset of an index that files its entries under their deadlines gives a well-formed index with
  -- no entry filed.
  pub reset-Filed : Filed (reset s) (λ _. 0) (λ _. [])
  reset-Filed = rw reset_step (
      Released-Filed s.heap.len s.heap.slots (release_all s.heap.len s.heap.slots detached)
        (omega (arith, h.resolution, reset-resolution, ap (λ t. t.resolution_nanos) reset_step))
        (Released-all s.heap.len s.heap.slots s.heap.len detached (omega arith) detached-Released))
