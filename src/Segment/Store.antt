-- ===== src/Segment/Store.antt =====
-- The whole insertions of segment.go against the model: `set`, `getOrSet` and `getOrSetEntry`.
use pacecache.Prelude.{
  ℕ, ◌≡◌, ◌≢◌, inl, inr, ap, ◌∙◌, Bool, Bool-cases, Option-cases, arith, ok, ◌==◌,
}
use pacecache.Expiration.{IndexOps, IndexLaws}
use pacecache.Segment.{Entry, Segment}
use pacecache.Segment.Insert.{set_locked-Refines}
use pacecache.Segment.Model.{Model, fresh_entry, set_model, get_or_set_model, read}
use pacecache.Segment.Reads.{value_of, snapshot_of, get_locked-Refines, get_entry_locked-Refines}
use pacecache.Segment.Refines.{Refines}
use pacecache.Segment.Update.{set, get_or_set, get_or_set_entry}

module _ {K V : Type 0} (dec : Discrete K) {ix : IndexOps} (laws : IndexLaws ix)
    {s : Segment K V ix.State} {m : Model K V} (r : Refines dec laws s m) (k : K) (v : V)
    (ttl deadline : ℕ) where
  abbrev new : Entry K V
  new = fresh_entry k v ttl deadline

  no_room : {b : Bool} → (s.max_entries == 0) ≡ b → (m.max_entries == 0) ≡ b
  no_room e = ap (λ n. n == 0) r.capacity ∙ e

  pub set-Refines :
      (t : Segment K V ix.State) × (set dec ix k v ttl deadline s ≡ ok t)
      × Refines dec laws t (set_model dec new m)
  unfolding set
  set-Refines = elim (Bool-cases (s.max_entries == 0)) [
    | inl e ↦ rw (no_room e, set_model) (s, ground (arith, e), r)
    | inr e ↦
        let (t, f, q) = set_locked-Refines dec laws r k v ttl deadline (ground arith) in
        rw (no_room e, set_model) (t, ground (arith, e, f), q)
  ]

  -- A read leaves the capacity.
  read-capacity : (now : ℕ) → (read dec k now m).0.max_entries ≡ m.max_entries
  read-capacity now = ground arith

  -- On a segment that stands for a model, a get-or-set succeeds: with capacity 0 it returns nothing
  -- and changes nothing, on a live entry it returns that value and reads it, and otherwise it
  -- stores the given value as a set does and returns it with the result false.
  pub get_or_set-Refines :
      (now : ℕ)
      → let result = get_or_set_model dec new now m in
        (t : Segment K V ix.State) × (get_or_set dec ix k v ttl deadline now s
          ≡ ok (t, value_of result.1, result.2))
        × Refines dec laws t result.0
  unfolding get_or_set
  get_or_set-Refines now = elim (Bool-cases (s.max_entries == 0)) [
    | inl e ↦ rw (no_room e, get_or_set_model) (s, ground (arith, e), r)
    | inr e ↦
        let (t, f, q) = get_locked-Refines dec laws r k now in
        let room : t.max_entries ≢ 0 = ground (arith, q.capacity, read-capacity now, r.capacity) in
        elim (Option-cases (read dec k now m).1) [
          | inr (d, hit) ↦ rw (no_room e, hit, get_or_set_model) (t, ground (arith, e, f, hit), q)
          | inl miss ↦
              let (u, g, w) = set_locked-Refines dec laws q k v ttl deadline room in
              rw (no_room e, miss, get_or_set_model) (u, ground (arith, e, f, miss, g), w)
        ]
  ]

  -- On a segment that stands for a model, the entry form of get-or-set does to the model what
  -- get-or-set does, and returns the snapshot of the entry that the key holds then, with the
  -- deadline that it was given.
  pub get_or_set_entry-Refines :
      (now : ℕ)
      → let result = get_or_set_model dec new now m in
        (t : Segment K V ix.State) × (get_or_set_entry dec ix k v ttl deadline now s
          ≡ ok (t, snapshot_of result.1, result.2))
        × Refines dec laws t result.0
  unfolding get_or_set_entry
  get_or_set_entry-Refines now = elim (Bool-cases (s.max_entries == 0)) [
    | inl e ↦ rw (no_room e, get_or_set_model) (s, ground (arith, e), r)
    | inr e ↦
        let (t, f, q) = get_entry_locked-Refines dec laws r k now in
        let room : t.max_entries ≢ 0 = ground (arith, q.capacity, read-capacity now, r.capacity) in
        elim (Option-cases (read dec k now m).1) [
          | inr (d, hit) ↦ rw (no_room e, hit, get_or_set_model) (t, ground (arith, e, f, hit), q)
          | inl miss ↦
              let (u, g, w) = set_locked-Refines dec laws q k v ttl deadline room in
              rw (no_room e, miss, get_or_set_model) (u, ground (arith, e, f, miss, g), w)
        ]
  ]
