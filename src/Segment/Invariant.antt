-- ===== src/Segment/Invariant.antt =====
-- When a segment is well formed, and that the primitives of segment.go keep it so: they do not
-- panic, and the map, the LRU list, the memory and the expiration index go on agreeing.
use pacecache.Prelude.{
  ℕ, ◌≤◌, ◌≡◌, refl, sym, ap, ◌∙◌, subst, fun_ext, inl, some, ◌∷◌, arith, ok, length,
}
use pacecache.Prelude.GoMap
use pacecache.Chain.{Ptr, write-write, write_self}
use pacecache.Expiration.{IndexOps, IndexLaws}
use pacecache.Lru.{unlink, move_to_front}
use pacecache.Segment.{Entry, Segment, store, update_deadline, remove_locked}
use pacecache.Segment.Nodes.{
  Nodes, addresses, deadline_at, find_node, drop_node, replace_node, find_node-key,
  find_node-Stored, deadline_at-found, deadline_at-drop_node,
}
use pacecache.Segment.Nodes.Replace.{
  addresses-replace_node, deadline_at-replace_node, find_node-replace_node, drop_node-replace_node,
}
use pacecache.Segment.Shape.{
  Shape, found-nil, length_drop_node, drop-Shape, front-Shape, replace-Shape,
}

pub Files-ext :
    {ix : IndexOps} (laws : IndexLaws ix) (i : ix.State) (m n : Ptr → ℕ)
    → laws.Files i m
    → ((q : Ptr) → m q ≡ n q)
    → laws.Files i n
Files-ext laws i m n f e = subst (laws.Files i) (fun_ext e) f

module _ {K V : Type 0} (dec : Discrete K) {ix : IndexOps} (laws : IndexLaws ix) where
  -- The segment `s` holds the entries `ps`, most recently used first.
  pub record Holds (s : Segment K V ix.State) (ps : Nodes K V) : Type 0 where
    pub shape : Shape dec s.entries s.cells s.fresh s.lru ps
    pub filed : laws.Files s.expirations (deadline_at ps)
    pub bounded : length (addresses ps) ≤ s.max_entries

  -- What only the counters' updates change, and what nothing changes.
  pub record SameSettings (s t : Segment K V ix.State) : Type 0 where
    pub capacity : s.max_entries ≡ t.max_entries
    pub sliding : s.sliding_expiration ≡ t.sliding_expiration
    pub resolution : ix.resolution s.expirations ≡ ix.resolution t.expirations
    pub stats : s.stats ≡ t.stats

  module _ {s : Segment K V ix.State} {ps : Nodes K V} (h : Holds s ps) (k : K) (p : Ptr)
      (c : Entry K V) (found : find_node dec k ps ≡ some (p, c)) where
    cell : s.cells p ≡ some c
    cell = find_node-Stored dec k p c s.cells ps found h.shape.stored

    due : deadline_at ps p ≡ c.deadline
    due = deadline_at-found dec k p c ps found h.shape.order.distinct

    pub remove_locked-Holds :
        (t : Segment K V ix.State) × (remove_locked dec ix s p ≡ ok t)
        × Holds t (drop_node dec k ps)
        × SameSettings t s
    unfolding remove_locked
    remove_locked-Holds =
        let (j, e, f, r) =
          laws.remove_files s.expirations (deadline_at ps) p c.deadline h.filed
            (found-nil dec h.shape k p c found) due in
        (
          record s {
            expirations = j;
            entries = GoMap.delete dec s.entries c.key;
            lru = unlink s.lru p;
          },
          ground (arith, cell, e),
          record {
            shape = rw (find_node-key dec k p c ps found) (drop-Shape dec h.shape k p c found);
            filed =
                Files-ext laws _ _ _ f
                  (λ q. sym (deadline_at-drop_node dec k p c q ps found h.shape.order.distinct));
            bounded = omega (arith, h.bounded, length_drop_node dec h.shape k p c found);
          },
          record { capacity = refl; sliding = refl; resolution = r; stats = refl },
        )

    -- The value and the lifetime of an entry are written before its deadline.
    pub update_deadline-Holds :
        (d : Entry K V) (deadline : ℕ)
        → d.key ≡ k
        → d.deadline ≡ c.deadline
        → (t : Segment K V ix.State) × (update_deadline dec ix (store s p d) p deadline ≡ ok t)
          × Holds t (replace_node dec k (record d { deadline = deadline }) ps)
          × SameSettings t s
          × (t.lru ≡ s.lru)
    unfolding update_deadline
    update_deadline-Holds d deadline key same =
        let new : Entry K V = record d { deadline = deadline } in
        let (j, e, f, r) =
          laws.update_files s.expirations (deadline_at ps) p d.deadline deadline h.filed
            (found-nil dec h.shape k p c found) (due ∙ sym same) in
        (
          store (record (store s p d) { expirations = j }) p new,
          ground (arith, e),
          record {
            shape =
                subst (λ m. Shape dec s.entries m s.fresh s.lru (replace_node dec k new ps))
                  (write-write s.cells p (some d) (some new))
                  (replace-Shape dec h.shape k p c found new key);
            filed = Files-ext laws _ _ _ f (λ q.
                sym (deadline_at-replace_node dec k new p c q ps found h.shape.order.distinct));
            bounded = rw (addresses-replace_node dec k new ps) h.bounded;
          },
          record { capacity = refl; sliding = refl; resolution = r; stats = refl },
          refl,
        )

    pub refresh_deadline-Holds :
        (deadline : ℕ)
        → (t : Segment K V ix.State) × (update_deadline dec ix s p deadline ≡ ok t)
          × Holds t (replace_node dec k (record c { deadline = deadline }) ps)
          × SameSettings t s
          × (t.lru ≡ s.lru)
    refresh_deadline-Holds deadline =
        let (t, e, h', same, links) =
          update_deadline-Holds c deadline (find_node-key dec k p c ps found) refl in
        (
          t,
          subst (λ u. update_deadline dec ix u p deadline ≡ ok t)
              (ap (λ f. record s { cells = f }) (write_self s.cells p (some c) cell)) e,
          h',
          same,
          links,
        )

    pub front-Holds : Holds (record s { lru = move_to_front s.lru p }) ((p, c) ∷ drop_node dec k ps)
    front-Holds = record {
      shape = front-Shape dec h.shape k p c found;
      filed = Files-ext laws _ _ _ h.filed (λ q.
          ground (arith, deadline_at-drop_node dec k p c q ps found h.shape.order.distinct, due));
      bounded = omega (arith, h.bounded, length_drop_node dec h.shape k p c found);
    }

  -- An entry that was written where it stands moves to the front.
  pub refront-Holds :
      (t : Segment K V ix.State) (ps : Nodes K V) (k : K) (p : Ptr) (c d : Entry K V)
      → find_node dec k ps ≡ some (p, c)
      → d.key ≡ k
      → Holds t (replace_node dec k d ps)
      → Holds (record t { lru = move_to_front t.lru p }) ((p, d) ∷ drop_node dec k ps)
  refront-Holds t ps k p c d found key h =
      subst (λ qs. Holds (record t { lru = move_to_front t.lru p }) ((p, d) ∷ qs))
        (drop_node-replace_node dec k d p c ps found (inl key))
        (front-Holds h d.key p d (find_node-replace_node dec k d p c ps found (inl key)))
