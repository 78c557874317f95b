-- ===== src/Segment/Refines.antt =====
-- A segment stands for a model when it holds the model's entries in the model's order. What a
-- lookup of a key can meet, and the steps that the operations of segment.go share.
use pacecache.Prelude.{
  ℕ, ◌≡◌, ◌⊎◌, inl, inr, refl, sym, ◌∙◌, subst, true, false, Bool-cases, none, some, Option-cases,
  ◌∷◌, arith, ok, ltb, ◌&&◌, if◌then◌else◌,
}
use pacecache.Chain.{Ptr}
use pacecache.Clock.{deadline_after}
use pacecache.Expiration.{IndexOps, IndexLaws}
use pacecache.Lru.{move_to_front}
use pacecache.Segment.{Entry, Segment, count_expiration, count, remove_locked, refresh, touch}
use pacecache.Segment.Invariant.{
  Holds, SameSettings, remove_locked-Holds, refresh_deadline-Holds, front-Holds, refront-Holds,
}
use pacecache.Segment.Model.{Model, find, drop, replace, renewed, expire, tally}
use pacecache.Segment.Nodes.{
  Nodes, items, find_node, drop_node, replace_node, items-drop_node, items-replace_node,
}
use pacecache.Segment.Nodes.Replace.{replace_node_self}
use pacecache.Segment.Nodes.Find.{find_node-none, find-items_some}
use pacecache.Stats.{SegmentStats}
use pacecache.Segment.Shape.{mapped-found}

module _ {K V : Type 0} (c : Entry K V) (now : ℕ) where
  renewed_later :
      ltb c.deadline (deadline_after now c.refresh_ttl) ≡ true
      → record c { deadline = deadline_after now c.refresh_ttl } ≡ renewed c now
  renewed_later h = ground arith

  renewed_earlier : ltb c.deadline (deadline_after now c.refresh_ttl) ≡ false → c ≡ renewed c now
  renewed_earlier h = ground arith

module _ {K V : Type 0} (dec : Discrete K) {ix : IndexOps} (laws : IndexLaws ix) where
  pub record Refines (s : Segment K V ix.State) (m : Model K V) : Type 0 where
    pub nodes : Nodes K V
    pub holds : Holds dec laws s nodes
    pub listed : m.items ≡ items nodes
    pub capacity : m.max_entries ≡ s.max_entries
    pub sliding : m.sliding ≡ s.sliding_expiration
    pub resolution : m.resolution ≡ ix.resolution s.expirations
    pub stats : m.stats ≡ s.stats

  -- A key is absent from both, or its entry is at the mapped address.
  pub record Present (s : Segment K V ix.State) (m : Model K V) (ps : Nodes K V) (k : K) (p : Ptr)
      (c : Entry K V) : Type 0 where
    pub mapped : s.entries.at k ≡ some p
    pub cell : s.cells p ≡ some c
    pub node : find_node dec k ps ≡ some (p, c)
    pub found : find dec k m.items ≡ some c
    pub key : c.key ≡ k

  -- Counting is the same on both sides.
  pub count-Refines :
      (f : SegmentStats → SegmentStats) {s : Segment K V ix.State} {m : Model K V}
      → Refines s m
      → Refines (count f s) (tally f m)
  count-Refines f {s} {m} r = record {
    nodes = r.nodes;
    holds = record { shape = r.holds.shape; filed = r.holds.filed; bounded = r.holds.bounded };
    listed = r.listed;
    capacity = r.capacity;
    sliding = r.sliding;
    resolution = r.resolution;
    stats = rw r.stats;
  }

  module _ {s : Segment K V ix.State} {m : Model K V} (r : Refines s m) (k : K) where
    pub look :
        ((s.entries.at k ≡ none) × (find dec k m.items ≡ none))
        ⊎ ((p : Ptr) × (c : Entry K V) × Present s m r.nodes k p c)
    look = elim (Option-cases (s.entries.at k)) [
      | inl e ↦
          inl (e, rw r.listed (find_node-none dec k r.nodes (sym (r.holds.shape.mapped k) ∙ e)))
      | inr (p, e) ↦
          let (c, f, g, h) = mapped-found dec r.holds.shape k e in
          inr (
            p,
            c,
            record {
              mapped = e;
              cell = h;
              node = f;
              found = rw r.listed (find-items_some dec k p c r.nodes f);
              key = g;
            },
          )
    ]

    module _ (p : Ptr) (c : Entry K V) (at : Present s m r.nodes k p c) where
      pub remove-Refines :
          (t : Segment K V ix.State) × (remove_locked dec ix s p ≡ ok t)
          × Refines t (record m { items = drop dec k m.items })
          × SameSettings dec laws t s
      remove-Refines =
          let (t, e, h, same) = remove_locked-Holds dec laws r.holds k p c at.node in
          (
            t,
            e,
            record {
              nodes = drop_node dec k r.nodes;
              holds = h;
              listed = rw (r.listed, items-drop_node dec k r.nodes);
              capacity = r.capacity ∙ sym same.capacity;
              sliding = r.sliding ∙ sym same.sliding;
              resolution = r.resolution ∙ sym same.resolution;
              stats = r.stats ∙ sym same.stats;
            },
            same,
          )

      pub refresh-Holds :
          (now : ℕ)
          → (t : Segment K V ix.State) × (refresh dec ix s p c now ≡ ok t)
            × Holds dec laws t (replace_node dec k (renewed c now) r.nodes)
            × SameSettings dec laws t s
      unfolding refresh
      refresh-Holds now = elim (Bool-cases (ltb c.deadline (deadline_after now c.refresh_ttl))) [
        | inl later ↦
            let (t, e, h, same, _) =
              refresh_deadline-Holds dec laws r.holds k p c at.node
                (deadline_after now c.refresh_ttl) in
            (
              t,
              rw (later, refresh) e,
              subst (λ d. Holds dec laws t (replace_node dec k d r.nodes))
                  (renewed_later c now later) h,
              same,
            )
        | inr earlier ↦ (
          s,
          rw (earlier, refresh) refl,
          subst (λ d. Holds dec laws s (replace_node dec k d r.nodes))
              (renewed_earlier c now earlier)
              (rw (replace_node_self dec k p c r.nodes at.node) r.holds),
          record { capacity = refl; sliding = refl; resolution = refl; stats = refl },
        )
      ]

      -- A live read.
      pub touch-Holds :
          (now : ℕ)
          → let d = if s.sliding_expiration && ltb 0 c.refresh_ttl then renewed c now else c in
            (t : Segment K V ix.State) × (touch dec ix s p c now ≡ ok t)
            × Holds dec laws t ((p, d) ∷ drop_node dec k r.nodes)
            × SameSettings dec laws t s
      unfolding touch
      touch-Holds now = elim (Bool-cases (s.sliding_expiration && ltb 0 c.refresh_ttl)) [
        | inl on ↦
            let (t, e, h, same) = refresh-Holds now in
            rw on (
              record t { lru = move_to_front t.lru p },
              rw e,
              refront-Holds dec laws t r.nodes k p c (renewed c now) at.node at.key h,
              record {
                capacity = same.capacity;
                sliding = same.sliding;
                resolution = same.resolution;
                stats = same.stats;
              },
            )
        | inr off ↦ rw off (
          record s { lru = move_to_front s.lru p },
          refl,
          front-Holds dec laws r.holds k p c at.node,
          record { capacity = refl; sliding = refl; resolution = refl; stats = refl },
        )
      ]

      -- An expired entry that an operation meets is reclaimed and counted.
      pub expire-Refines :
          (t : Segment K V ix.State) × (remove_locked dec ix s p ≡ ok t)
          × Refines (count count_expiration t) (expire dec k m)
      expire-Refines =
          let (t, e, q, same) = remove-Refines in (t, e, count-Refines count_expiration q)

      pub refresh-Refines :
          (now : ℕ)
          → (t : Segment K V ix.State) × (refresh dec ix s p c now ≡ ok t)
            × Refines t (record m { items = replace dec k (renewed c now) m.items })
      refresh-Refines now =
          let (t, e, h, same) = refresh-Holds now in
          (
            t,
            e,
            record {
              nodes = replace_node dec k (renewed c now) r.nodes;
              holds = h;
              listed = rw (r.listed, items-replace_node dec k (renewed c now) r.nodes);
              capacity = r.capacity ∙ sym same.capacity;
              sliding = r.sliding ∙ sym same.sliding;
              resolution = r.resolution ∙ sym same.resolution;
              stats = r.stats ∙ sym same.stats;
            },
          )

      pub touch-Refines :
          (now : ℕ)
          → let d = if m.sliding && ltb 0 c.refresh_ttl then renewed c now else c in
            (t : Segment K V ix.State) × (touch dec ix s p c now ≡ ok t)
            × Refines t (record m { items = d ∷ drop dec k m.items })
            × (t.cells p ≡ some d)
      touch-Refines now =
          let (t, e, h, same) = touch-Holds now in
          let d = if s.sliding_expiration && ltb 0 c.refresh_ttl then renewed c now else c in
          rw r.sliding (
            t,
            e,
            record {
              nodes = (p, d) ∷ drop_node dec k r.nodes;
              holds = h;
              listed = rw (r.listed, items-drop_node dec k r.nodes);
              capacity = r.capacity ∙ sym same.capacity;
              sliding = sym same.sliding;
              resolution = r.resolution ∙ sym same.resolution;
              stats = r.stats ∙ sym same.stats;
            },
            h.shape.stored.0,
          )
