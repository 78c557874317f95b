-- ===== src/Segment/Insert.antt =====
-- The insertions of segment.go against the model: `setLocked`, `set`, `getOrSet`, `getOrSetEntry`.
use pacecache.Prelude.{
  ℕ, suc, ◌≡◌, ◌≢◌, inl, inr, refl, sym, ap, ◌∙◌, subst, true, false, Bool-cases, none, some, [],
  ◌∷◌, arith, ok, leb, ◌==◌, if◌then◌else◌, length,
}
use pacecache.Prelude.GoMap
use pacecache.Prelude.GoMap.{GoMap}
use pacecache.Chain.{Ptr, nil, write, write-write}
use pacecache.Expiration.{IndexOps, IndexLaws}
use pacecache.Lru.{move_to_front, push_front}
use pacecache.Lru.Order.{tail-last}
use pacecache.Segment.{Entry, Segment, count, count_eviction, update_deadline}
use pacecache.Segment.Invariant.{Holds, Files-ext, update_deadline-Holds, refront-Holds}
use pacecache.Segment.Model.{Model, drop, drop_last, fresh_entry, write_entry, tally}
use pacecache.Segment.Nodes.{
  Nodes, addresses, items, deadline_at, find_node, drop_node, address_of, find_node-Stored,
  deadline_at-found, deadline_at-drop_node, fresh-absent, deadline_at-absent, items-drop_node,
  length-addresses,
}
use pacecache.Segment.Nodes.Replace.{find_node-replace_node, drop_node-replace_node}
use pacecache.Segment.Nodes.Find.{last_node}
use pacecache.Segment.Refines.{Refines, Present, look}
use pacecache.Segment.Shape.{
  Shape, found-nil, length_drop_node, push-Shape, rekey-Shape, front-Shape,
}
use pacecache.Segment.Update.{set_locked}

module _ {K V : Type 0} (dec : Discrete K) {ix : IndexOps} (laws : IndexLaws ix)
    {s : Segment K V ix.State} {m : Model K V} (r : Refines dec laws s m) (k : K) (v : V)
    (ttl deadline : ℕ) where
  abbrev new : Entry K V
  new = fresh_entry k v ttl deadline

  -- The key is present: its entry is written and moved to the front.
  overwrite-Refines :
      (p : Ptr) (c : Entry K V)
      → Present dec laws s m r.nodes k p c
      → (t : Segment K V ix.State) × (set_locked dec ix k v ttl deadline s ≡ ok t)
        × Refines dec laws t (record m { items = new ∷ drop dec k m.items })
  unfolding set_locked
  overwrite-Refines p c at =
      let d : Entry K V = record c { value = v; refresh_ttl = if deadline == 0 then 0 else ttl } in
      let (t, e, h, same, links) =
        update_deadline-Holds dec laws r.holds k p c at.node d deadline at.key refl in
      (
        record t { lru = move_to_front t.lru p },
        ground (arith, at.mapped, at.cell, e),
        record {
          nodes = (p, new) ∷ drop_node dec k r.nodes;
          holds =
              subst
                (λ j.
                  Holds dec laws (record t { lru = move_to_front t.lru p })
                    ((p, fresh_entry j v ttl deadline) ∷ drop_node dec k r.nodes))
                at.key
                (refront-Holds dec laws t r.nodes k p c (record d { deadline = deadline }) at.node
                  at.key h);
          listed = rw (r.listed, items-drop_node dec k r.nodes);
          capacity = r.capacity ∙ sym same.capacity;
          sliding = r.sliding ∙ sym same.sliding;
          resolution = r.resolution ∙ sym same.resolution;
          stats = r.stats ∙ sym same.stats;
        },
      )

  -- The key is new and there is room: a new entry is allocated.
  allocate-Refines :
      s.entries.at k ≡ none
      → leb s.max_entries s.entries.len ≡ false
      → (t : Segment K V ix.State) × (set_locked dec ix k v ttl deadline s ≡ ok t)
        × Refines dec laws t (record m { items = new ∷ m.items })
  unfolding set_locked update_deadline
  allocate-Refines absent room =
      let h = r.holds in
      let out = fresh-absent s.fresh (addresses r.nodes) h.shape.allocated in
      let (j, e, f, res) =
        laws.update_files s.expirations (deadline_at r.nodes) s.fresh 0 deadline h.filed
          (omega (arith, h.shape.positive)) (deadline_at-absent r.nodes s.fresh out) in
      (
        record s {
          entries = GoMap.insert dec s.entries k s.fresh;
          cells =
              write (write s.cells s.fresh (some (record new { deadline = 0 }))) s.fresh (some new);
          fresh = suc s.fresh;
          lru = push_front s.lru s.fresh;
          expirations = j;
        },
        ground (arith, absent, room, e),
        record {
          nodes = (s.fresh, new) ∷ r.nodes;
          holds = record {
            shape =
                subst
                  (λ c.
                    Shape dec (GoMap.insert dec s.entries k s.fresh) c (suc s.fresh)
                      (push_front s.lru s.fresh) ((s.fresh, new) ∷ r.nodes))
                  (write-write s.cells s.fresh (some (record new { deadline = 0 })) (some new))
                  (push-Shape dec h.shape new absent);
            filed = Files-ext laws _ _ _ f (λ q. refl);
            bounded = ground (arith, h.shape.counted);
          };
          listed = ap (λ cs. new ∷ cs) r.listed;
          capacity = r.capacity;
          sliding = r.sliding;
          resolution = r.resolution ∙ sym res;
          stats = r.stats;
        },
      )

  -- The key is new and the segment full: the least recently used entry is reused.
  module _ (p : Ptr) (c : Entry K V) (found : find_node dec c.key r.nodes ≡ some (p, c))
      (last : s.lru.tail ≡ p) (absent : s.entries.at k ≡ none)
      (full : leb s.max_entries s.entries.len ≡ true) where
    evicted-Shape :
        Shape dec
          (GoMap.insert dec (GoMap.delete dec s.entries c.key) k p)
          (write (write s.cells p (some (record new { deadline = 0 }))) p (some new))
          s.fresh
          (move_to_front s.lru p)
          ((p, new) ∷ drop_node dec c.key r.nodes)
    evicted-Shape =
        subst
          (λ cells.
            Shape dec entries cells s.fresh (move_to_front s.lru p)
              ((p, new) ∷ drop_node dec c.key r.nodes))
          (write-write s.cells p (some (record new { deadline = 0 })) (some new))
          (subst
            (λ ps.
              Shape dec entries (write s.cells p (some new)) s.fresh (move_to_front s.lru p)
                ((p, new) ∷ ps))
            (drop_node-replace_node dec c.key new p c r.nodes found (inr unused))
            (front-Shape dec (rekey-Shape dec r.holds.shape c.key p c found new unused) k p new
              (find_node-replace_node dec c.key new p c r.nodes found (inr unused))))
      where
        entries : GoMap K Ptr
        entries = GoMap.insert dec (GoMap.delete dec s.entries c.key) k p

        unused : address_of dec k r.nodes ≡ none
        unused = sym (r.holds.shape.mapped k) ∙ absent

    evict-Holds :
        (j : ix.State)
        → laws.Files j (write (write (deadline_at r.nodes) p 0) p deadline)
        → Holds dec laws
            (record s {
              entries = GoMap.insert dec (GoMap.delete dec s.entries c.key) k p;
              cells = write (write s.cells p (some (record new { deadline = 0 }))) p (some new);
              lru = move_to_front s.lru p;
              expirations = j;
              stats = (count count_eviction s).stats;
            })
            ((p, new) ∷ drop_node dec c.key r.nodes)
    evict-Holds j f = record {
      shape = evicted-Shape;
      filed = Files-ext laws _ _ _ f (λ q. ground (
        arith,
        deadline_at-drop_node dec c.key p c q r.nodes found r.holds.shape.order.distinct,
      ));
      bounded = omega (arith, r.holds.bounded, length_drop_node dec r.holds.shape c.key p c found);
    }

    evict-Refines :
        items (drop_node dec c.key r.nodes) ≡ drop_last (items r.nodes)
        → (t : Segment K V ix.State) × (set_locked dec ix k v ttl deadline s ≡ ok t)
          × Refines dec laws t (tally count_eviction (record m { items = new ∷ drop_last m.items }))
    unfolding set_locked update_deadline
    evict-Refines left =
        let h = r.holds in
        let (i, ei, fi, ri) =
          laws.remove_files s.expirations (deadline_at r.nodes) p c.deadline h.filed
            (found-nil dec h.shape c.key p c found)
            (deadline_at-found dec c.key p c r.nodes found h.shape.order.distinct) in
        let (j, ej, fj, rj) =
          laws.update_files i (write (deadline_at r.nodes) p 0) p 0 deadline fi
            (found-nil dec h.shape c.key p c found) (ground arith) in
        (
          record s {
            entries = GoMap.insert dec (GoMap.delete dec s.entries c.key) k p;
            cells = write (write s.cells p (some (record new { deadline = 0 }))) p (some new);
            lru = move_to_front s.lru p;
            expirations = j;
            stats = (count count_eviction s).stats;
          },
          ground (
            arith,
            absent,
            full,
            ei,
            ej,
            last,
            find_node-Stored dec c.key p c s.cells r.nodes found h.shape.stored,
          ),
          record {
            nodes = (p, new) ∷ drop_node dec c.key r.nodes;
            holds = evict-Holds j fj;
            listed = ap (λ cs. new ∷ cs) (ap drop_last r.listed ∙ sym left);
            capacity = r.capacity;
            sliding = r.sliding;
            resolution = r.resolution ∙ sym (rj ∙ ri);
            stats = rw r.stats;
          },
        )

  nonempty :
      leb s.max_entries s.entries.len ≡ true
      → s.max_entries ≢ 0
      → (ps : Nodes K V) → s.entries.len ≡ length (addresses ps)
      → ps ≢ []
  nonempty full positive [] e = λ _. ground arith
  nonempty full positive (n ∷ ps) e = λ x. cc

  -- On a segment that stands for a model and has a positive capacity, a locked set succeeds, and
  -- the result stands for the model with the entry first: an entry under the same key is replaced,
  -- and under a new key the least recently used entry of a full segment is evicted and counted.
  pub set_locked-Refines :
      s.max_entries ≢ 0
      → (t : Segment K V ix.State) × (set_locked dec ix k v ttl deadline s ≡ ok t)
        × Refines dec laws t (write_entry dec new m)
  set_locked-Refines positive = elim (look dec laws r k) [
    | inr (p, c, at) ↦ rw (at.found, write_entry) (overwrite-Refines p c at)
    | inl (absent, missing) ↦ elim (Bool-cases (leb s.max_entries s.entries.len)) [
      | inl full ↦
          let (p, c, found, last, left) =
            last_node dec nil r.nodes r.holds.shape.keys
              (nonempty full positive r.nodes r.holds.shape.counted) in
          rw (missing, at_capacity ∙ full, write_entry)
            (evict-Refines p c found (tail-last s.lru r.holds.shape.order ∙ last) absent full left)
      | inr room ↦ rw (missing, at_capacity ∙ room, write_entry) (allocate-Refines absent room)
    ]
  ]
    where
      at_capacity : leb m.max_entries (length m.items) ≡ leb s.max_entries s.entries.len
      at_capacity = rw (r.capacity, r.listed, ← length-addresses r.nodes, r.holds.shape.counted)
