-- ===== src/Cache/Steps.antt =====
-- What a step on one segment of a cache of cache.go does to its validity.
use pacecache.Prelude.{
  ◌+◌, ℕ, zero, suc, ◌<◌, ◌≡◌, ◌%◌, refl, sym, ap, ◌∙◌, some, List, [], ◌∷◌, ok, length, get_elem?,
  set, length-set, arith,
}
use pacecache.Cache.{Cache, forget_at}
use pacecache.Cache.Valid.{Valid, model_capacity, AllRoomy}
use pacecache.Expiration.Index.Laws.{index_laws}
use pacecache.Segment.Model.{Model}
use pacecache.Segment.Refines.{Refines}
use pacecache.Singleflight.{Group, forget}
use pacecache.Types.{LoadResult}
use pacecache.Storage.{StorageSegment, segment_index, segment_mask}
use pacecache.Storage.At.{AllRefine-set}
use pacecache.Storage.Drain.{AllIndexed}
use pacecache.Storage.Routing.{segment_index-mod}

module _ {K V : Type 0} (dec : Discrete K) where
  pub AllIndexed-at :
      (i : ℕ) (ms : List (Model K V)) (m : Model K V)
      → AllIndexed dec ms
      → get_elem? ms i ≡ some m
      → 0 < m.resolution
  AllIndexed-at i [] m a e = ground arith
  AllIndexed-at zero (n ∷ ms) m a e = ground arith
  AllIndexed-at (suc i) (n ∷ ms) m a e = AllIndexed-at i ms m a.1 e

  pub AllIndexed-set :
      (i : ℕ) (ms : List (Model K V)) (m : Model K V)
      → AllIndexed dec ms
      → 0 < m.resolution
      → AllIndexed dec (set ms i m)
  AllIndexed-set i [] m a p = tt
  AllIndexed-set zero (n ∷ ms) m a p = (p, a.1)
  AllIndexed-set (suc i) (n ∷ ms) m a p = (a.0, AllIndexed-set i ms m a.1 p)

  model_capacity-set :
      (i : ℕ) (ms : List (Model K V)) (m m' : Model K V)
      → get_elem? ms i ≡ some m
      → m'.max_entries ≡ m.max_entries
      → model_capacity (set ms i m') ≡ model_capacity ms
  model_capacity-set i [] m m' e c = refl
  model_capacity-set zero (n ∷ ms) m m' e c = ground arith
  model_capacity-set (suc i) (n ∷ ms) m m' e c =
      ap (λ t. n.max_entries + t) (model_capacity-set i ms m m' e c)

  pub AllRoomy-at :
      (i : ℕ) (ms : List (Model K V)) (m : Model K V)
      → AllRoomy ms
      → get_elem? ms i ≡ some m
      → 0 < m.max_entries
  AllRoomy-at i [] m a e = ground arith
  AllRoomy-at zero (n ∷ ms) m a e = ground arith
  AllRoomy-at (suc i) (n ∷ ms) m a e = AllRoomy-at i ms m a.1 e

  pub AllRoomy-set :
      (i : ℕ) (ms : List (Model K V)) (m : Model K V)
      → AllRoomy ms
      → 0 < m.max_entries
      → AllRoomy (set ms i m)
  AllRoomy-set i [] m a p = tt
  AllRoomy-set zero (n ∷ ms) m a p = (p, a.1)
  AllRoomy-set (suc i) (n ∷ ms) m a p = (a.0, AllRoomy-set i ms m a.1 p)

  pub forget_at_lem :
      (i : ℕ) (k : K) (c : Cache K V) (g : Group K (LoadResult V))
      → get_elem? c.states i ≡ some g
      → forget_at dec i k c ≡ ok (record c { states = set c.states i (forget dec k g) })
  unfolding forget_at
  forget_at_lem i k c g e = rw (e, forget_at) refl

  module _ (c : Cache K V) (ms : List (Model K V)) (v : Valid dec c ms) where
    pub routed :
        (hash : K → ℕ) (k : K)
        → (segment_index hash c.store k ≡ hash k % length c.store.segments)
          × (segment_index hash c.store k < length c.store.segments)
    routed hash k = segment_index-mod hash c.store k v.some_segment v.word v.mask

    -- One segment and the groups changed.
    pub changed-Valid :
        (i : ℕ) (m m' : Model K V) (t' : StorageSegment K V) (gs : List (Group K (LoadResult V)))
        → get_elem? ms i ≡ some m
        → Refines dec index_laws t' m'
        → m'.resolution ≡ m.resolution
        → m'.max_entries ≡ m.max_entries
        → length gs ≡ length c.states
        → Valid dec
            (record c {
              store = record c.store { segments = set c.store.segments i t' };
              states = gs;
            })
            (set ms i m')
    changed-Valid i m m' t' gs at r res cap same = record {
      refines = AllRefine-set dec i c.store.segments ms t' m' v.refines r;
      indexed = AllIndexed-set i ms m' v.indexed (rw res (AllIndexed-at i ms m v.indexed at));
      roomy = AllRoomy-set i ms m' v.roomy (rw cap (AllRoomy-at i ms m v.roomy at));
      capacity = model_capacity-set i ms m m' at cap ∙ v.capacity;
      some_segment = rw (length-set c.store.segments i t') v.some_segment;
      word = rw (length-set c.store.segments i t') v.word;
      mask = v.mask ∙ ap segment_mask (sym (length-set c.store.segments i t'));
      groups = same ∙ v.groups ∙ sym (length-set c.store.segments i t');
      batch = v.batch;
      budget = v.budget;
    }
