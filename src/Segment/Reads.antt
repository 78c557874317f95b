-- ===== src/Segment/Reads.antt =====
-- The reads of segment.go against the model: `exists`, `refreshTTL`, `getEntryLocked`, `getLocked`,
-- `lookup` and `lookupEntry`. None panics on a well-formed segment.
use pacecache.Prelude.{ℕ, ◌≡◌, inl, inr, refl, ap, Bool-cases, Option, none, some, arith, ok, ◌==◌}
use pacecache.Expiration.{IndexOps, IndexLaws}
use pacecache.Segment.{
  Entry, Segment, CachedEntry, is_expired, snapshot, count_hit, count_miss, count, count_expiration,
}
use pacecache.Segment.Lookup.{
  exists, refresh_ttl, get_entry_locked, get_locked, lookup, lookup_entry, count_lookup,
}
use pacecache.Segment.Model.{Model, exists_model, refresh_model, read, tally}
use pacecache.Segment.Refines.{
  Refines, look, count-Refines, expire-Refines, refresh-Refines, touch-Refines,
}

module _ {K V : Type 0} where
  -- What a read reports of the entry that it found.
  abbrev pub value_of : Option (Entry K V) → Option V
  value_of none = none
  value_of (some c) = some c.value

  abbrev pub snapshot_of : Option (Entry K V) → Option (CachedEntry V)
  snapshot_of none = none
  snapshot_of (some c) = some (snapshot c)

  -- A lookup counts a hit or a miss.
  abbrev pub counted : Model K V × Option (Entry K V) → Model K V × Option (Entry K V)
  counted (m, none) = (tally count_miss m, none)
  counted (m, some c) = (tally count_hit m, some c)

module _ {K V : Type 0} (dec : Discrete K) {ix : IndexOps} (laws : IndexLaws ix) where
  count_value-Refines :
      {t : Segment K V ix.State} (n : Model K V) (o : Option (Entry K V))
      → Refines dec laws t n
      → (u : Segment K V ix.State) × (count_lookup dec ix (t, value_of o) ≡ (u, value_of o))
        × Refines dec laws u (counted (n, o)).0
  count_value-Refines {t} n none q = (count count_miss t, refl, count-Refines dec laws count_miss q)
  count_value-Refines {t} n (some c) q =
      (count count_hit t, refl, count-Refines dec laws count_hit q)

  count_entry-Refines :
      {t : Segment K V ix.State} (n : Model K V) (o : Option (Entry K V))
      → Refines dec laws t n
      → (u : Segment K V ix.State) × (count_lookup dec ix (t, snapshot_of o) ≡ (u, snapshot_of o))
        × Refines dec laws u (counted (n, o)).0
  count_entry-Refines {t} n none q = (count count_miss t, refl, count-Refines dec laws count_miss q)
  count_entry-Refines {t} n (some c) q =
      (count count_hit t, refl, count-Refines dec laws count_hit q)

module _ {K V : Type 0} (dec : Discrete K) {ix : IndexOps} (laws : IndexLaws ix)
    {s : Segment K V ix.State} {m : Model K V} (r : Refines dec laws s m) (k : K) (now : ℕ) where
  -- On a segment that stands for a model, an existence test succeeds and is true exactly for a live
  -- entry; it leaves the order and the lookup counts alone, and removes and counts an expired
  -- entry.
  pub exists-Refines :
      (t : Segment K V ix.State) × (exists dec ix k now s ≡ ok (t, (exists_model dec k now m).1))
      × Refines dec laws t (exists_model dec k now m).0
  unfolding exists
  exists-Refines = elim (look dec laws r k) [
    | inl (e, f) ↦ rw (f, exists_model) (s, ground (arith, e), r)
    | inr (p, c, at) ↦ elim (Bool-cases (is_expired c now)) [
      | inl old ↦
          let (t, e, q) = expire-Refines dec laws r k p c at in
          rw (at.found, old, exists_model)
            (count count_expiration t, ground (arith, at.mapped, at.cell, old, e), q)
      | inr live ↦
          rw (at.found, live, exists_model) (s, ground (arith, at.mapped, at.cell, live), r)
    ]
  ]

  -- On a segment that stands for a model, a refresh succeeds: a live entry is renewed in its place
  -- in the order, its deadline never brought forward, an entry with no lifetime stays as it is,
  -- both with the result true; an expired entry is removed and counted with the result false, as
  -- for an absent key.
  pub refresh_ttl-Refines :
      (t : Segment K V ix.State) × (refresh_ttl dec ix k now s
        ≡ ok (t, (refresh_model dec k now m).1))
      × Refines dec laws t (refresh_model dec k now m).0
  unfolding refresh_ttl
  refresh_ttl-Refines = elim (look dec laws r k) [
    | inl (e, f) ↦ rw (f, refresh_model) (s, ground (arith, e), r)
    | inr (p, c, at) ↦ elim (Bool-cases (is_expired c now)) [
      | inl old ↦
          let (t, e, q) = expire-Refines dec laws r k p c at in
          rw (at.found, old, refresh_model)
            (count count_expiration t, ground (arith, at.mapped, at.cell, old, e), q)
      | inr live ↦ elim (Bool-cases (c.refresh_ttl == 0)) [
        | inl eternal ↦
            rw (at.found, live, eternal, refresh_model)
              (s, ground (arith, at.mapped, at.cell, live, eternal), r)
        | inr timed ↦
            let (t, e, q) = refresh-Refines dec laws r k p c at now in
            rw (at.found, live, timed, refresh_model)
              (t, ground (arith, at.mapped, at.cell, live, timed, e), q)
      ]
    ]
  ]

  pub get_entry_locked-Refines :
      (t : Segment K V ix.State) × (get_entry_locked dec ix k now s
        ≡ ok (t, snapshot_of (read dec k now m).1))
      × Refines dec laws t (read dec k now m).0
  unfolding get_entry_locked
  get_entry_locked-Refines = elim (look dec laws r k) [
    | inl (e, f) ↦ rw (f, read) (s, ground (arith, e), r)
    | inr (p, c, at) ↦ elim (Bool-cases (is_expired c now)) [
      | inl old ↦
          let (t, e, q) = expire-Refines dec laws r k p c at in
          rw (at.found, old, read)
            (count count_expiration t, ground (arith, at.mapped, at.cell, old, e), q)
      | inr live ↦
          let (t, e, q, cell) = touch-Refines dec laws r k p c at now in
          rw (at.found, live, read) (t, ground (arith, at.mapped, at.cell, live, e, cell), q)
    ]
  ]

  pub get_locked-Refines :
      (t : Segment K V ix.State) × (get_locked dec ix k now s
        ≡ ok (t, value_of (read dec k now m).1))
      × Refines dec laws t (read dec k now m).0
  unfolding get_locked
  get_locked-Refines = elim (look dec laws r k) [
    | inl (e, f) ↦ rw (f, read) (s, ground (arith, e), r)
    | inr (p, c, at) ↦ elim (Bool-cases (is_expired c now)) [
      | inl old ↦
          let (t, e, q) = expire-Refines dec laws r k p c at in
          rw (at.found, old, read)
            (count count_expiration t, ground (arith, at.mapped, at.cell, old, e), q)
      | inr live ↦
          let (t, e, q, cell) = touch-Refines dec laws r k p c at now in
          rw (at.found, live, read) (t, ground (arith, at.mapped, at.cell, live, e, cell), q)
    ]
  ]

  -- On a segment that stands for a model, a lookup succeeds and returns what the model reads: a
  -- live value, whose entry moves to the front and with sliding expiration is renewed, or nothing,
  -- when an expired entry is removed and counted. A hit or a miss is counted.
  pub lookup-Refines :
      (t : Segment K V ix.State) × (lookup dec ix k now s ≡ ok (t, value_of (read dec k now m).1))
      × Refines dec laws t (counted (read dec k now m)).0
  unfolding lookup
  lookup-Refines =
      let (t, e, q) = get_locked-Refines in
      let (u, d, w) = count_value-Refines dec laws (read dec k now m).0 (read dec k now m).1 q in
      (u, rw e (ap ok d), w)

  pub lookup_entry-Refines :
      (t : Segment K V ix.State) × (lookup_entry dec ix k now s
        ≡ ok (t, snapshot_of (read dec k now m).1))
      × Refines dec laws t (counted (read dec k now m)).0
  unfolding lookup_entry
  lookup_entry-Refines =
      let (t, e, q) = get_entry_locked-Refines in
      let (u, d, w) = count_entry-Refines dec laws (read dec k now m).0 (read dec k now m).1 q in
      (u, rw e (ap ok d), w)
