-- ===== src/Segment/Cleanup.antt =====
-- `cleanupExpired` of segment.go against the model: which entries a bounded round of physical
-- cleanup takes, and which it leaves.
use pacecache.Prelude.{
  ℕ, zero, suc, ◌+◌, ◌≤◌, ◌<◌, ◌≡◌, ◌≢◌, inl, inr, refl, sym, ap, subst, ◌∙◌, Bool, true, false,
  Bool-cases, some, List, [], ◌∷◌, arith, ok, length,
}
use pacecache.Prelude.GoMap
use pacecache.Expiration.{IndexOps, IndexLaws, bucket_id, due_bucket_id}
use pacecache.Lru.{unlink}
use pacecache.Segment.{Entry, Segment, count, count_expiration}
use pacecache.Segment.Invariant.{Files-ext}
use pacecache.Segment.Model.{Model, find, drop, expire}
use pacecache.Segment.Nodes.{
  deadline_at, drop_node, items-drop_node, deadline_at-found, deadline_at-drop_node,
  find_node-Stored, address_of-found,
}
use pacecache.Segment.Nodes.Find.{find-items_some, deadline_at-node}
use pacecache.Segment.Refines.{Refines, look, count-Refines}
use pacecache.Segment.Shape.{drop-Shape, length_drop_node}
use pacecache.Segment.Update.{cleanup_one, cleanup_loop, cleanup_expired}

module _ {K V : Type 0} (dec : Discrete K) where
  -- The entry's bucket is due.
  abbrev pub IsDue : (due : ℕ) → Model K V → Entry K V → Type 0
  IsDue due m c = (c.deadline ≢ 0) × (bucket_id m.resolution c.deadline ≤ due)

  -- `n` entries with a due bucket are reclaimed, one after the other, and counted as expirations.
  pub data Reclaims (due : ℕ) : ℕ → Model K V → Model K V → Type 0 where
    done : {m : Model K V} → Reclaims due 0 m m
    reclaim :
        {n : ℕ} {m m' : Model K V} (k : K) (c : Entry K V)
        → find dec k m.items ≡ some c
        → IsDue due m c
        → Reclaims due n (expire dec k m) m'
        → Reclaims due (suc n) m m'

  length-drop :
      (k : K) (c : Entry K V) (cs : List (Entry K V))
      → find dec k cs ≡ some c
      → suc (length (drop dec k cs)) ≡ length cs
  length-drop k c [] h = ground arith
  length-drop k c (d ∷ cs) h = ground (arith, length-drop k c cs)

  pub Reclaims-resolution :
      {due n : ℕ} {m m' : Model K V} → Reclaims due n m m' → m'.resolution ≡ m.resolution
  Reclaims-resolution done = refl
  Reclaims-resolution (reclaim k c f d rest) = Reclaims-resolution rest

  pub Reclaims-max_entries :
      {due n : ℕ} {m m' : Model K V} → Reclaims due n m m' → m'.max_entries ≡ m.max_entries
  Reclaims-max_entries done = refl
  Reclaims-max_entries (reclaim k c f d rest) = Reclaims-max_entries rest

  -- As many entries go as are counted.
  pub length-Reclaims :
      {due n : ℕ} {m m' : Model K V} → Reclaims due n m m' → length m'.items + n ≡ length m.items
  length-Reclaims done = omega arith
  length-Reclaims (reclaim {m} k c f d rest) =
      omega (arith, length-Reclaims rest, length-drop k c m.items f)

  pub Reclaims-trans :
      {due n k : ℕ} {m m' m'' : Model K V}
      → Reclaims due n m m'
      → Reclaims due k m' m''
      → Reclaims due (n + k) m m''
  Reclaims-trans {due} {k} {m''} (done {m}) s = subst (λ i. Reclaims due i m m'') (omega arith) s
  Reclaims-trans {due} {k} {m''} (reclaim {n = n} {m = m} j c f d rest) s =
      subst (λ i. Reclaims due i m m'') (omega arith) (reclaim j c f d (Reclaims-trans rest s))

  find-drop_ne :
      (j k : K) (cs : List (Entry K V)) → k ≢ j → find dec j (drop dec k cs) ≡ find dec j cs
  find-drop_ne j k [] h = refl
  find-drop_ne j k (d ∷ cs) h = ground (arith, find-drop_ne j k cs)

  -- An entry whose bucket is not due stays.
  pub find-Reclaims :
      {due n : ℕ} {m m' : Model K V} (k : K) (c : Entry K V)
      → Reclaims due n m m'
      → find dec k m.items ≡ some c
      → ¬ IsDue due m c
      → find dec k m'.items ≡ some c
  find-Reclaims k c done f keep = f
  find-Reclaims k c (reclaim {m} j d g due rest) f keep =
      find-Reclaims k c rest (find-drop_ne k j m.items other ∙ f) keep
    where
      other : j ≢ k
      other e = keep (subst (IsDue _ m) (same (ap (λ i. find dec i m.items) e)) due)
        where
          same : find dec j m.items ≡ find dec k m.items → d ≡ c
          same e' = cc

module _ {K V : Type 0} (dec : Discrete K) {ix : IndexOps} (laws : IndexLaws ix) where
  -- The round does not panic: what the index pops is in the map.
  pub cleanup_one-Refines :
      {s : Segment K V ix.State} {m : Model K V} (due : ℕ)
      → Refines dec laws s m
      → ix.has_due_bucket s.expirations due ≡ true
      → (t : Segment K V ix.State) × (k : K) × (c : Entry K V) × (cleanup_one dec ix s ≡ ok t)
        × (find dec k m.items ≡ some c)
        × IsDue dec due m c
        × Refines dec laws t (expire dec k m)
  unfolding cleanup_one
  cleanup_one-Refines {s} {m} due r h =
      let (p, j, e, filed, early, files, res) =
        laws.pop_files s.expirations (deadline_at r.nodes) due r.holds.filed h in
      let (c, node, at) = deadline_at-node dec r.nodes p r.holds.shape.keys filed in
      let mapped = r.holds.shape.mapped c.key ∙ address_of-found dec c.key p c r.nodes node in
      (
        count count_expiration (record s {
          expirations = j;
          entries = GoMap.delete dec s.entries c.key;
          lru = unlink s.lru p;
        }),
        c.key,
        c,
        ground (
          arith,
          e,
          mapped,
          find_node-Stored dec c.key p c s.cells r.nodes node r.holds.shape.stored,
        ),
        rw r.listed (find-items_some dec c.key p c r.nodes node),
        (λ z. filed (at ∙ z), ground (arith, r.resolution, at, early)),
        count-Refines dec laws count_expiration (record {
          nodes = drop_node dec c.key r.nodes;
          holds = record {
            shape = drop-Shape dec r.holds.shape c.key p c node;
            filed = Files-ext laws _ _ _ files (λ q.
                sym (
                  deadline_at-drop_node dec c.key p c q r.nodes node r.holds.shape.order.distinct));
            bounded =
                omega (arith, r.holds.bounded, length_drop_node dec r.holds.shape c.key p c node);
          };
          listed = rw (r.listed, items-drop_node dec c.key r.nodes);
          capacity = r.capacity;
          sliding = r.sliding;
          resolution = r.resolution ∙ sym res;
          stats = r.stats;
        }),
      )

  pub cleanup_loop-Refines :
      (rounds due removed : ℕ) {s : Segment K V ix.State} {m : Model K V}
      → Refines dec laws s m
      → (t : Segment K V ix.State) × (n : ℕ) × (m' : Model K V) × (cleanup_loop dec ix rounds due
            removed s
          ≡ ok (t, removed + n))
        × Reclaims dec due n m m'
        × Refines dec laws t m'
        × (n ≤ rounds)
        × (ix.has_due_bucket t.expirations due ≡ true → n ≡ rounds)
  unfolding cleanup_loop
  cleanup_loop-Refines zero due removed {s} {m} r =
      (s, 0, m, ground arith, done, r, omega arith, λ _. refl)
  cleanup_loop-Refines (suc rounds) due removed {s} {m} r =
      elim (Bool-cases (ix.has_due_bucket s.expirations due)) [
        | inr idle ↦ (s, 0, m, ground (arith, idle), done, r, omega arith, λ h. ground arith)
        | inl more ↦
            let (s', k, c, e, f, d, q) = cleanup_one-Refines due r more in
            let (t, n, m', e', rest, w, le, full) =
              cleanup_loop-Refines rounds due (removed + 1) {s = s'} {m = expire dec k m} q in
            (
              t,
              suc n,
              m',
              ground (arith, more, e, e'),
              reclaim k c f d rest,
              w,
              omega arith,
              λ h. ap suc (full h),
            )
      ]

  -- When the index has no due bucket, the model has no due entry.
  none_left :
      {t : Segment K V ix.State} {m : Model K V} {due : ℕ}
      → Refines dec laws t m
      → 0 < ix.resolution t.expirations
      → ix.has_due_bucket t.expirations due ≡ false
      → (k : K) (c : Entry K V) → find dec k m.items ≡ some c
      → ¬ IsDue dec due m c
  none_left {t} {m} {due} q on idle k c f d = elim (look dec laws q k) [
    | inl (_, missing) ↦ cc
    | inr (p, e, at) ↦
        let filed = deadline_at-found dec k p e q.nodes at.node q.holds.shape.order.distinct in
        let late = laws.none_due t.expirations (deadline_at q.nodes) due q.holds.filed on idle p in
        let same : e ≡ c = cc (at.found) in ground (arith, filed, late, same, q.resolution, d)
  ]

  -- On a segment that stands for a model with an expiration index, with a positive limit, a cleanup
  -- never panics. It reclaims entries whose bucket is due and no others, at most the limit; it says
  -- that nothing is pending only if no due entry is left, and that something is pending only after
  -- it has used the limit up.
  pub cleanup_expired-Refines :
      {s : Segment K V ix.State} {m : Model K V} (now limit : ℕ)
      → Refines dec laws s m
      → 0 < m.resolution
      → 0 < limit
      → let due = due_bucket_id m.resolution now in
        (t : Segment K V ix.State) × (n : ℕ) × (pending : Bool) × (m' : Model K V)
        × (cleanup_expired dec ix now limit s ≡ ok (t, n, pending))
        × Reclaims dec due n m m'
        × Refines dec laws t m'
        × (n ≤ limit)
        × (pending ≡ true → n ≡ limit)
        × (pending ≡ false
            → (k : K) (c : Entry K V) → find dec k m'.items ≡ some c
            → ¬ IsDue dec due m' c)
  unfolding cleanup_expired
  cleanup_expired-Refines {s} {m} now limit r on some_limit =
      let due = due_bucket_id m.resolution now in
      let (t, n, m', e, steps, q, le, full) = cleanup_loop-Refines limit due 0 r in
      (
        t,
        n,
        ix.has_due_bucket t.expirations due,
        m',
        ground (arith, e, r.resolution, on, some_limit),
        steps,
        q,
        le,
        full,
        λ idle. none_left q (ground (arith, q.resolution, Reclaims-resolution dec steps, on)) idle,
      )
