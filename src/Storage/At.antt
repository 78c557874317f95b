-- ===== src/Storage/At.antt =====
-- An operation on one segment of storage.go changes the model of that segment only.
use pacecache.Prelude.{
  ◌≤◌, ℕ, zero, suc, ◌<◌, ◌≡◌, refl, ap, some, List, [], ◌∷◌, Result, ok, length, get_elem?, set,
  arith,
}
use pacecache.Expiration.Index.Laws.{index_laws}
use pacecache.Segment.Model.{Model}
use pacecache.Segment.Refines.{Refines}
use pacecache.Segment.Removal.{bounded-Refines}
use pacecache.Storage.Routing.{total_capacity}
use pacecache.Storage.{entry_count, Storage, StorageSegment, at_segment}
use pacecache.Storage.Drain.{AllRefine}

module _ {K V : Type 0} (dec : Discrete K) where
  pub length-AllRefine :
      (ts : List (StorageSegment K V)) (ms : List (Model K V))
      → AllRefine dec ts ms
      → length ts ≡ length ms
  length-AllRefine [] [] a = refl
  length-AllRefine [] (m ∷ ms) a = elim a [ ]
  length-AllRefine (t ∷ ts) [] a = elim a [ ]
  length-AllRefine (t ∷ ts) (m ∷ ms) (r, a) = ap suc (length-AllRefine ts ms a)

  -- A segment that exists has a model.
  pub AllRefine-at :
      (i : ℕ) (ts : List (StorageSegment K V)) (ms : List (Model K V))
      → AllRefine dec ts ms
      → i < length ts
      → (t : StorageSegment K V) × (m : Model K V) × (get_elem? ts i ≡ some t)
        × (get_elem? ms i ≡ some m)
        × Refines dec index_laws t m
  AllRefine-at i [] ms a lt = absurd (ground arith)
  AllRefine-at i (t ∷ ts) [] a lt = elim a [ ]
  AllRefine-at zero (t ∷ ts) (m ∷ ms) (r, a) lt = (t, m, refl, refl, r)
  AllRefine-at (suc i) (t ∷ ts) (m ∷ ms) (r, a) lt = AllRefine-at i ts ms a (omega arith)

  pub AllRefine-set :
      (i : ℕ) (ts : List (StorageSegment K V)) (ms : List (Model K V)) (t : StorageSegment K V)
      (m : Model K V)
      → AllRefine dec ts ms
      → Refines dec index_laws t m
      → AllRefine dec (set ts i t) (set ms i m)
  AllRefine-set i [] [] t m a r = tt
  AllRefine-set i [] (n ∷ ms) t m a r = elim a [ ]
  AllRefine-set i (u ∷ ts) [] t m a r = elim a [ ]
  AllRefine-set zero (u ∷ ts) (n ∷ ms) t m (q, a) r = (r, a)
  AllRefine-set (suc i) (u ∷ ts) (n ∷ ms) t m (q, a) r = (q, AllRefine-set i ts ms t m a r)

  -- What an operation does to the segment and returns is what it does in the storage.
  pub at_segment_lem :
      {A : Type 0} (i : ℕ) (f : StorageSegment K V → Result (StorageSegment K V × A))
      (s : Storage K V) (t t' : StorageSegment K V) (a : A)
      → get_elem? s.segments i ≡ some t
      → f t ≡ ok (t', a)
      → at_segment i f s ≡ ok (record s { segments = set s.segments i t' }, a)
  unfolding at_segment
  at_segment_lem i f s t t' a e g = rw (e, at_segment) (rw g refl)

  -- In segments that stand for models, the number of resident entries is at most the sum of the
  -- capacities.
  pub entry_count-bounded :
      (ts : List (StorageSegment K V)) (ms : List (Model K V))
      → AllRefine dec ts ms
      → entry_count dec ts ≤ total_capacity ts
  entry_count-bounded [] [] a = omega arith
  entry_count-bounded [] (m ∷ ms) a = elim a [ ]
  entry_count-bounded (t ∷ ts) [] a = elim a [ ]
  entry_count-bounded (t ∷ ts) (m ∷ ms) (r, a) =
      omega (arith, bounded-Refines dec index_laws r, entry_count-bounded ts ms a)
