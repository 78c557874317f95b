-- ===== src/Expiration/Index/Filed.antt =====
-- The invariant of the expiration index of expiration.go: the map, the heap and the lists of the
-- buckets agree, and each entry is in the bucket of its deadline.
use pacecache.Prelude.{
  ℕ, ◌≤◌, ◌<◌, ◌≡◌, ◌≢◌, ◌⊎◌, ◌↔◌, refl, inl, inr, Bool-cases, none, some, List, [], ◌∷◌, ◌++◌,
  arith, ◌==◌, if◌then◌else◌, ◌∈◌, ◌∉◌, Distinct, erase, has-append, has-erase,
}
use pacecache.Chain.{Ptr, nil, write}
use pacecache.Expiration.{bucket_id}
use pacecache.Expiration.Heap.{BucketPtr}
use pacecache.Expiration.Heap.Edits.{WellFormed}
use pacecache.Expiration.Lists.{BucketLists}
use pacecache.Expiration.Lists.Members.{Holds}
use pacecache.Expiration.Index.{Index}

-- A bucket is active if it has a position in the heap. `m` has the deadline under which an entry is
-- filed, and `items` the entries of a bucket.
pub record Filed (s : Index) (m : Ptr → ℕ) (items : BucketPtr → List Ptr) : Type 0 where
  pub resolution : 0 < s.resolution_nanos
  pub lists : Holds s.lists items
  pub heap : WellFormed s.ids s.heap
  pub mapped : (b : BucketPtr) → s.heap.index b ≢ none → s.buckets (s.ids b) ≡ some b
  pub active :
      (id : ℕ) (b : BucketPtr) → s.buckets id ≡ some b → (s.heap.index b ≢ none) × (s.ids b ≡ id)
  pub filed :
      (p : Ptr) (b : BucketPtr)
      → p ∈ items b
      → (s.heap.index b ≢ none) × (m p ≢ 0) × (bucket_id s.resolution_nanos (m p) ≡ s.ids b)
  pub found : (p : Ptr) → m p ≢ 0 → (b : BucketPtr) × (p ∈ items b)
  pub filled : (b : BucketPtr) → s.heap.index b ≢ none → items b ≢ []
  pub spares : (b : BucketPtr) → b ∈ s.spare → s.heap.index b ≡ none
  pub spare_distinct : Distinct s.spare
  pub unused : (b : BucketPtr) → s.fresh ≤ b → (s.heap.index b ≡ none) × (b ∉ s.spare)

-- A bucket that is taken from the stock and not yet in the heap, or the other way round.
pub record Reserved (s : Index) (b : BucketPtr) : Type 0 where
  pub inactive : s.heap.index b ≡ none
  pub taken : b ∉ s.spare
  pub used : b < s.fresh

head-mem : (xs : List Ptr) (A : Type 0) → ((x : Ptr) → x ∈ xs → A) → (xs ≡ []) ⊎ A
head-mem [] A f = inl refl
head-mem (x ∷ xs) A f = inr (f x (ground arith))

snoc-ne : (xs : List Ptr) (p : Ptr) → (xs ++ p ∷ []) ≢ []
snoc-ne [] p e = ground arith
snoc-ne (x ∷ xs) p e = ground arith

module _ (s : Index) (m : Ptr → ℕ) (items : BucketPtr → List Ptr) (h : Filed s m items) where
  pub inactive-empty : (b : BucketPtr) → s.heap.index b ≡ none → items b ≡ []
  inactive-empty b e =
      elim (head-mem (items b) (s.heap.index b ≢ none) (λ x i. (h.filed x b i).0)) [
        | inl z ↦ z
        | inr z ↦ absurd (z e)
      ]

  pub unfiled : (p : Ptr) → m p ≡ 0 → (b : BucketPtr) → p ∉ items b
  unfiled p e b = ground (arith, h.filed p b)

  -- The bucket of an entry is found in the map.
  pub bucket_of :
      (p : Ptr)
      → m p ≢ 0
      → (b : BucketPtr) × (p ∈ items b)
        × (s.buckets (bucket_id s.resolution_nanos (m p)) ≡ some b)
        × (s.heap.index b ≢ none)
  bucket_of p ne =
      let (b, i) = h.found p ne in let (a, z, e) = h.filed p b i in (b, i, rw e (h.mapped b a), a)

  -- The deadline changes within the bucket.
  pub moved-Filed :
      (p : Ptr) (d : ℕ)
      → d ≢ 0
      → m p ≢ 0
      → bucket_id s.resolution_nanos (m p) ≡ bucket_id s.resolution_nanos d
      → Filed s (write m p d) items
  moved-Filed p d filed_later ne same = record {
    resolution = h.resolution;
    lists = h.lists;
    heap = h.heap;
    mapped = h.mapped;
    active = h.active;
    filed = λ q c i. ground (arith, h.filed q c, same);
    found = λ q z. elim (Bool-cases (q == p)) [
      | inl e ↦ h.found q (ground (arith, ne))
      | inr e ↦ h.found q (ground (arith, z))
    ];
    filled = h.filled;
    spares = h.spares;
    spare_distinct = h.spare_distinct;
    unused = h.unused;
  }

  module _ (t : Index) (b : BucketPtr) (p : Ptr) where
    -- An entry joins the bucket of its deadline, which is active from then on.
    pub joined-Filed :
        (d : ℕ)
        → d ≢ 0
        → p ≢ nil
        → m p ≡ 0
        → bucket_id s.resolution_nanos d ≡ s.ids b
        → b ∉ s.spare
        → b < s.fresh
        → t.resolution_nanos ≡ s.resolution_nanos
        → ((c : BucketPtr) → t.ids c ≡ s.ids c)
        → t.spare ≡ s.spare
        → t.fresh ≡ s.fresh
        → ((id : ℕ) → t.buckets id ≡ (if id == s.ids b then some b else s.buckets id))
        → ((c : BucketPtr) → s.buckets (s.ids b) ≡ some c → c ≡ b)
        → t.heap.index b ≢ none
        → ((c : BucketPtr) → c ≢ b → (t.heap.index c ≡ none) ↔ (s.heap.index c ≡ none))
        → WellFormed t.ids t.heap
        → Holds t.lists (write items b (items b ++ p ∷ []))
        → Filed t (write m p d) (write items b (items b ++ p ∷ []))
    joined-Filed d filed_later proper e id kept used er ei es ef eb only present others heap holds =
        record {
          resolution = rw er h.resolution;
          lists = holds;
          heap = heap;
          mapped = λ c a. ground (arith, ei c, eb (s.ids c), others c, h.mapped c, only c);
          active = λ i c a. ground (arith, ei c, eb i, h.active i c, others c);
          filed = λ q c i. ground (
            arith,
            er,
            ei c,
            others c,
            h.filed q c,
            h.filed q b,
            has-append q (items b) (p ∷ []),
            unfiled p e c,
          );
          found = λ q z. elim (Bool-cases (q == p)) [
            | inl eq ↦ (b, ground (arith, has-append q (items b) (p ∷ [])))
            | inr eq ↦
                let (c, i) = h.found q (ground (arith, z)) in
                (c, ground (arith, has-append q (items b) (p ∷ [])))
          ];
          filled = λ c a. elim (Bool-cases (c == b)) [
            | inl eq ↦ rw eq (snoc-ne (items b) p)
            | inr eq ↦ rw eq (h.filled c (ground (arith, others c)))
          ];
          spares = λ c i. ground (arith, es, others c, h.spares c);
          spare_distinct = rw es h.spare_distinct;
          unused = λ c le. ground (arith, ef, es, others c, h.unused c);
        }

    -- An entry leaves a bucket that keeps others.
    pub left-Filed :
        (l : BucketLists)
        → p ∈ items b
        → erase p (items b) ≢ []
        → Holds l (write items b (erase p (items b)))
        → Filed (record s { lists = l }) (write m p 0) (write items b (erase p (items b)))
    left-Filed l inside rest holds = record {
      resolution = h.resolution;
      lists = holds;
      heap = h.heap;
      mapped = h.mapped;
      active = h.active;
      filed = λ q c i. ground (
        arith,
        h.filed q c,
        has-erase p q (items b) (h.lists.ring b).distinct,
        h.lists.disjoint q b c,
      );
      found = λ q z.
          let (c, i) = h.found q (ground (arith, z)) in
          (c, ground (arith, has-erase p q (items b) (h.lists.ring b).distinct));
      filled = λ c a. ground (arith, h.filled c);
      spares = h.spares;
      spare_distinct = h.spare_distinct;
      unused = h.unused;
    }

    -- An entry leaves a bucket that it had to itself; the bucket leaves the map and the heap.
    pub emptied-Filed :
        p ∈ items b
        → erase p (items b) ≡ []
        → t.resolution_nanos ≡ s.resolution_nanos
        → ((c : BucketPtr) → t.ids c ≡ s.ids c)
        → t.spare ≡ s.spare
        → t.fresh ≡ s.fresh
        → ((id : ℕ) → t.buckets id ≡ (if id == s.ids b then none else s.buckets id))
        → t.heap.index b ≡ none
        → ((c : BucketPtr) → c ≢ b → (t.heap.index c ≡ none) ↔ (s.heap.index c ≡ none))
        → WellFormed t.ids t.heap
        → Holds t.lists (write items b (erase p (items b)))
        → Filed t (write m p 0) (write items b (erase p (items b))) × Reserved t b
    emptied-Filed inside alone er ei es ef eb absent others heap holds = (
      record {
        resolution = rw er h.resolution;
        lists = holds;
        heap = heap;
        mapped = λ c a.
            ground (arith, ei c, eb (s.ids c), others c, h.mapped c, h.mapped b, h.filed p b);
        active = λ i c a. ground (arith, ei c, eb i, h.active i c, others c);
        filed = λ q c i. ground (
          arith,
          er,
          ei c,
          others c,
          h.filed q c,
          has-erase p q (items b) (h.lists.ring b).distinct,
          h.lists.disjoint q b c,
        );
        found = λ q z.
            let (c, i) = h.found q (ground (arith, z)) in
            (c, ground (arith, has-erase p q (items b) (h.lists.ring b).distinct));
        filled = λ c a. ground (arith, others c, h.filled c);
        spares = λ c i. ground (arith, es, others c, h.spares c);
        spare_distinct = rw es h.spare_distinct;
        unused = λ c le. ground (arith, ef, es, others c, h.unused c);
      },
      record {
        inactive = absent;
        taken = ground (arith, es, h.spares b, h.filed p b);
        used = ground (arith, ef, h.unused b, h.filed p b);
      },
    )
