-- ===== src/Worker/Sweep.antt =====
-- One batch of the worker of cleanup.go on one segment of storage.go.
use pacecache.Prelude.{
  ℕ, zero, suc, ◌≤◌, ◌<◌, ◌≡◌, refl, sym, ap, subst, Bool, true, false, some, List, [], ◌∷◌, ok,
  length, get_elem?, set, get_elem?-set, arith,
}
use pacecache.Expiration.{due_bucket_id}
use pacecache.Expiration.Index.Laws.{index_laws}
use pacecache.Segment.{Entry}
use pacecache.Segment.Cleanup.{
  IsDue, Reclaims, done, reclaim, Reclaims-resolution, cleanup_expired-Refines,
}
use pacecache.Segment.Model.{Model, find}
use pacecache.Storage.{Storage}
use pacecache.Storage.At.{AllRefine-at, AllRefine-set, at_segment_lem, length-AllRefine}
use pacecache.Storage.Drain.{AllRefine, AllIndexed, Swept, nowhere, here, Swept-refl, Clean}
use pacecache.Cache.Steps.{AllIndexed-at}
use pacecache.Worker.{cleanup_expired_at}

module _ {K V : Type 0} (dec : Discrete K) (now : ℕ) where
  -- No entry of the model has a due bucket.
  abbrev pub IsClean : Model K V → Type 0
  IsClean m =
      (k : K) (c : Entry K V)
      → find dec k m.items ≡ some c
      → ¬ IsDue dec (due_bucket_id m.resolution now) m c

  abbrev pub CleanAt : List (Model K V) → ℕ → Type 0
  CleanAt ms i = (m : Model K V) → get_elem? ms i ≡ some m → IsClean m

  -- Nothing is reclaimed of a clean model.
  Reclaims-IsClean :
      {n : ℕ} {m m' : Model K V}
      → Reclaims dec (due_bucket_id m.resolution now) n m m'
      → IsClean m
      → IsClean m'
  Reclaims-IsClean done clean = clean
  Reclaims-IsClean (reclaim k c f d rest) clean = absurd (clean k c f d)

  pub Clean-all :
      (ms : List (Model K V)) → ((i : ℕ) → i < length ms → CleanAt ms i) → Clean dec now ms
  Clean-all [] all = tt
  Clean-all (m ∷ ms) all =
      (all 0 (omega arith) m refl, Clean-all ms (λ i lt. all (suc i) (omega arith)))

  Swept-at :
      {n : ℕ} (i : ℕ) (ms : List (Model K V)) (m m' : Model K V)
      → get_elem? ms i ≡ some m
      → Reclaims dec (due_bucket_id m.resolution now) n m m'
      → Swept dec now n ms (set ms i m')
  Swept-at i [] m m' e r = ground arith
  Swept-at {n} zero (d ∷ ms) m m' e r =
      subst (λ k. Swept dec now k (d ∷ ms) (m' ∷ ms)) (omega arith)
        (here (subst (λ x. Reclaims dec (due_bucket_id x.resolution now) n x m') (ground arith) r)
          (Swept-refl dec now ms))
  Swept-at {n} (suc i) (d ∷ ms) m m' e r =
      subst (λ k. Swept dec now k (d ∷ ms) (d ∷ set ms i m')) (omega arith)
        (here done (Swept-at i ms m m' e r))

  pub length-Swept :
      {n : ℕ} {ms ms' : List (Model K V)} → Swept dec now n ms ms' → length ms' ≡ length ms
  length-Swept nowhere = refl
  length-Swept (here r rest) = ap suc (length-Swept rest)

  pub CleanAt-Swept :
      {n : ℕ} {ms ms' : List (Model K V)}
      → Swept dec now n ms ms'
      → (i : ℕ) → CleanAt ms i
      → CleanAt ms' i
  CleanAt-Swept nowhere i clean m e = ground arith
  CleanAt-Swept (here {m = d} {m' = d'} r rest) zero clean m e =
      let same : d' ≡ m = ground arith in subst IsClean same (Reclaims-IsClean r (clean d refl))
  CleanAt-Swept (here r rest) (suc i) clean m e = CleanAt-Swept rest i clean m e

  pub batch-Refines :
      (i limit : ℕ) (s : Storage K V) (ms : List (Model K V))
      → AllRefine dec s.segments ms
      → AllIndexed dec ms
      → i < length s.segments
      → 0 < limit
      → (t : Storage K V) × (n : ℕ) × (more : Bool) × (ms' : List (Model K V)) × (cleanup_expired_at
            dec now i limit s
          ≡ ok (t, (n, more)))
        × Swept dec now n ms ms'
        × AllRefine dec t.segments ms'
        × (n ≤ limit)
        × (more ≡ true → n ≡ limit)
        × (more ≡ false → CleanAt ms' i)
  batch-Refines i limit s ms a on lt some_limit =
      let (t, m, et, em, r) = AllRefine-at dec i s.segments ms a lt in
      let (t', n, more, m', e, steps, q, le, full, idle) =
        cleanup_expired-Refines dec index_laws now limit r (AllIndexed-at dec i ms m on em)
          some_limit in
      (
        record s { segments = set s.segments i t' },
        n,
        more,
        set ms i m',
        at_segment_lem dec i _ s t t' (n, more) et (rw e refl),
        Swept-at i ms m m' em steps,
        AllRefine-set dec i s.segments ms t' m' a q,
        le,
        full,
        λ last d at.
            let same : m' ≡ d =
              ground (arith, get_elem?-set ms i i m', length-AllRefine dec s.segments ms a, at) in
            subst IsClean same (
              subst
                (λ z.
                  (k : K) (c : Entry K V)
                  → find dec k m'.items ≡ some c
                  → ¬ IsDue dec (due_bucket_id z now) m' c)
                (sym (Reclaims-resolution dec steps)) (idle last)),
      )
