-- ===== src/Segment/Removal.antt =====
-- The removals of segment.go against the model: `getAndDelete`, `delete` and `deleteAll`.
use pacecache.Prelude.{
  ℕ, ◌≤◌, Option-cases, none, ◌≡◌, inl, inr, refl, ◌∙◌, sym, Bool-cases, [], arith, ok, length,
}
use pacecache.Expiration.{IndexOps, IndexLaws}
use pacecache.Segment.{Segment, is_expired, count, count_expiration}
use pacecache.Segment.Model.{Model, find, take_model, delete_model}
use pacecache.Segment.Nodes.{
  length-addresses, drop_node, address_of, items-drop_node, address_of-drop_node,
}
use pacecache.Segment.Nodes.Find.{find_node-none}
use pacecache.Segment.Reads.{value_of}
use pacecache.Segment.Refines.{Refines, look, expire-Refines, remove-Refines}
use pacecache.Segment.Update.{get_and_delete, delete, delete_all}

module _ {K V : Type 0} (dec : Discrete K) {ix : IndexOps} (laws : IndexLaws ix)
    {s : Segment K V ix.State} {m : Model K V} (r : Refines dec laws s m) where
  -- On a segment that stands for a model, a get-and-delete succeeds: a live entry is removed and
  -- its value returned, an expired one is removed and counted as an expiration with no value
  -- returned, and an absent key changes nothing.
  pub get_and_delete-Refines :
      (k : K) (now : ℕ)
      → (t : Segment K V ix.State) × (get_and_delete dec ix k now s
          ≡ ok (t, value_of (take_model dec k now m).1))
        × Refines dec laws t (take_model dec k now m).0
  unfolding get_and_delete
  get_and_delete-Refines k now = elim (look dec laws r k) [
    | inl (e, f) ↦ rw (f, take_model) (s, ground (arith, e), r)
    | inr (p, c, at) ↦ elim (Bool-cases (is_expired c now)) [
      | inl old ↦
          let (t, e, q) = expire-Refines dec laws r k p c at in
          rw (at.found, old, take_model)
            (count count_expiration t, ground (arith, at.mapped, at.cell, old, e), q)
      | inr live ↦
          let (t, e, q, _) = remove-Refines dec laws r k p c at in
          rw (at.found, live, take_model) (t, ground (arith, at.mapped, at.cell, live, e), q)
    ]
  ]

  pub delete-Refines :
      (k : K)
      → (t : Segment K V ix.State) × (delete dec ix k s ≡ ok (t, (delete_model dec k m).1))
        × Refines dec laws t (delete_model dec k m).0
  unfolding delete
  delete-Refines k = elim (look dec laws r k) [
    | inl (e, f) ↦ rw (f, delete_model) (s, ground (arith, e), r)
    | inr (p, c, at) ↦
        let (t, e, q, _) = remove-Refines dec laws r k p c at in
        rw (at.found, delete_model) (t, ground (arith, at.mapped, e), q)
  ]

  -- A deleted key is absent, whether it was there or not.
  pub find-delete_model : (k : K) → find dec k (delete_model dec k m).0.items ≡ none
  find-delete_model k = elim (Option-cases (find dec k m.items)) [
    | inl e ↦ rw (e, delete_model) e
    | inr (c, e) ↦
        rw (e, delete_model, r.listed, ← items-drop_node dec k r.nodes)
          (find_node-none dec k (drop_node dec k r.nodes) gone)
  ]
    where
      gone : address_of dec k (drop_node dec k r.nodes) ≡ none
      gone = ground (arith, address_of-drop_node dec k k r.nodes r.holds.shape.keys)

  -- The map has as many keys as the model has entries.
  pub length-Refines : s.entries.len ≡ length m.items
  length-Refines = rw r.listed (r.holds.shape.counted ∙ length-addresses r.nodes)

  -- A segment has no more entries than its capacity.
  pub bounded-Refines : s.entries.len ≤ s.max_entries
  bounded-Refines = rw r.holds.shape.counted r.holds.bounded

  -- On a segment that stands for a model, deleting everything leaves a segment that stands for the
  -- model with no entries, and reports how many entries there were.
  pub delete_all-Refines :
      Refines dec laws (delete_all dec ix s).0 (record m { items = [] })
      × ((delete_all dec ix s).1 ≡ length m.items)
  unfolding delete_all
  delete_all-Refines =
      let (files, res) = laws.reset_files s.expirations _ r.holds.filed in
      (
        record {
          nodes = [];
          holds = record {
            shape = record {
              order = record { chain = (refl, refl); proper = refl; distinct = tt };
              stored = tt;
              mapped = λ k. refl;
              counted = refl;
              keys = tt;
              allocated = tt;
              positive = r.holds.shape.positive;
            };
            filed = files;
            bounded = omega arith;
          };
          listed = refl;
          capacity = r.capacity;
          sliding = r.sliding;
          resolution = r.resolution ∙ sym res;
          stats = r.stats;
        },
        length-Refines,
      )
