-- ===== src/Cache/Clearing.antt =====
-- `Clear` of delete.go: every segment is emptied.
use pacecache.Prelude.{
  ℕ, suc, ◌+◌, ◌≡◌, refl, sym, ap, ◌∙◌, subst, inl, inr, Bool-cases, List, [], ◌∷◌, map, length,
  length-map, arith, ◌==◌,
}
use pacecache.Cache.{Cache, record_clear, clear}
use pacecache.Cache.Valid.{Valid, model_capacity, AllRoomy}
use pacecache.Expiration.Index.Laws.{index_laws}
use pacecache.Segment.Model.{Model}
use pacecache.Segment.Removal.{delete_all-Refines}
use pacecache.Singleflight.{forget_all}
use pacecache.Storage.{StorageSegment, segment_mask, delete_segments, delete_all}
use pacecache.Storage.Drain.{AllRefine, AllIndexed, total}

module _ {K V : Type 0} (dec : Discrete K) where
  -- The segments' models without their entries.
  abbrev pub emptied : List (Model K V) → List (Model K V)
  emptied [] = []
  emptied (m ∷ ms) = record m { items = [] } ∷ emptied ms

  delete_segments-AllRefine :
      (ts : List (StorageSegment K V)) (ms : List (Model K V))
      → AllRefine dec ts ms
      → AllRefine dec (delete_segments dec ts).0 (emptied ms)
        × ((delete_segments dec ts).1 ≡ total dec ms)
        × (length (delete_segments dec ts).0 ≡ length ts)
  unfolding delete_segments
  delete_segments-AllRefine [] [] a = (tt, refl, refl)
  delete_segments-AllRefine [] (m ∷ ms) a = elim a [ ]
  delete_segments-AllRefine (t ∷ ts) [] a = elim a [ ]
  delete_segments-AllRefine (t ∷ ts) (m ∷ ms) (r, a) =
      let (q, n) = delete_all-Refines dec index_laws r in
      let (b, k, l) = delete_segments-AllRefine ts ms a in ((q, b), omega (arith, n, k), ap suc l)

  emptied_indexed : (ms : List (Model K V)) → AllIndexed dec ms → AllIndexed dec (emptied ms)
  emptied_indexed [] a = tt
  emptied_indexed (m ∷ ms) (p, a) = (p, emptied_indexed ms a)

  emptied_capacity : (ms : List (Model K V)) → model_capacity (emptied ms) ≡ model_capacity ms
  emptied_capacity [] = refl
  emptied_capacity (m ∷ ms) = ap (λ t. m.max_entries + t) (emptied_capacity ms)

  emptied_roomy : (ms : List (Model K V)) → AllRoomy ms → AllRoomy (emptied ms)
  emptied_roomy [] a = tt
  emptied_roomy (m ∷ ms) (p, a) = (p, emptied_roomy ms a)

  module _ (c : Cache K V) where
    abbrev emptied_cache : (cleared : ℕ) → Cache K V
    emptied_cache cleared = record c {
      store = record c.store { segments = (delete_segments dec c.store.segments).0 };
      states = map forget_all c.states;
      cleared_entry_count = cleared;
    }

    clear_step :
        clear dec c
        ≡ emptied_cache (c.cleared_entry_count + (delete_segments dec c.store.segments).1)
    unfolding clear record_clear delete_all
    clear_step = elim (Bool-cases ((delete_segments dec c.store.segments).1 == 0)) [
      | inl e ↦ rw (e, clear) (ap emptied_cache (ground arith))
      | inr e ↦ rw (e, clear) refl
    ]

    emptied-Valid :
        (ms : List (Model K V)) (cleared : ℕ)
        → Valid dec c ms
        → Valid dec (emptied_cache cleared) (emptied ms)
    emptied-Valid ms cleared v =
        let (a, n, l) = delete_segments-AllRefine c.store.segments ms v.refines in
        record {
          refines = a;
          indexed = emptied_indexed ms v.indexed;
          roomy = emptied_roomy ms v.roomy;
          capacity = emptied_capacity ms ∙ v.capacity;
          some_segment = rw l v.some_segment;
          word = rw l v.word;
          mask = v.mask ∙ ap segment_mask (sym l);
          groups = length-map forget_all c.states ∙ v.groups ∙ sym l;
          batch = v.batch;
          budget = v.budget;
        }

  -- Clearing a valid cache leaves a valid cache in which every model has no entries, adds the
  -- number of removed entries to the cleared ones, and forgets the calls in flight of every group.
  pub clear-Valid :
      (c : Cache K V) (ms : List (Model K V))
      → Valid dec c ms
      → Valid dec (clear dec c) (emptied ms)
        × ((clear dec c).cleared_entry_count ≡ c.cleared_entry_count + total dec ms)
        × ((clear dec c).states ≡ map forget_all c.states)
  clear-Valid c ms v =
      let (a, n, l) = delete_segments-AllRefine c.store.segments ms v.refines in
      (
        subst (λ d. Valid dec d (emptied ms)) (sym (clear_step c)) (emptied-Valid c ms _ v),
        ap (λ d. d.cleared_entry_count) (clear_step c) ∙ ap (λ k. c.cleared_entry_count + k) n,
        ap (λ d. d.states) (clear_step c),
      )
