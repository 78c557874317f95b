-- ===== src/Storage/Drain.antt =====
-- `cleanupExpired` of storage.go: it ends, and leaves no entry whose bucket was due.
use pacecache.Prelude.{
  ℕ, zero, suc, ◌+◌, ◌-◌, ◌<◌, ◌≡◌, refl, ap, sym, subst, inl, inr, min, Bool, true, false, ◌||◌,
  Bool-cases, some, List, [], ◌∷◌, ok, ◌==◌, if◌then◌else◌, length, get_elem?, arith,
}
use pacecache.Expiration.{due_bucket_id}
use pacecache.Expiration.Index.Laws.{index_laws}
use pacecache.Segment.{Entry}
use pacecache.Segment.Cleanup.{
  IsDue, Reclaims, done, Reclaims-resolution, length-Reclaims, cleanup_expired-Refines,
  Reclaims-trans,
}
use pacecache.Segment.Model.{Model, find}
use pacecache.Segment.Refines.{Refines}
use pacecache.Segment.Removal.{length-Refines}
use pacecache.Storage.{
  Storage, StorageSegment, cleanup_pass, cleanup_rounds, cleanup_expired, entry_count,
}

module _ {K V : Type 0} (dec : Discrete K) where
  -- Each segment stands for the model in the same place.
  abbrev pub AllRefine : List (StorageSegment K V) → List (Model K V) → Type 0
  AllRefine [] [] = Unit {0}
  AllRefine [] (m ∷ ms) = ⊥
  AllRefine (t ∷ ts) [] = ⊥
  AllRefine (t ∷ ts) (m ∷ ms) = Refines dec index_laws t m × AllRefine ts ms

  abbrev pub AllIndexed : List (Model K V) → Type 0
  AllIndexed [] = Unit {0}
  AllIndexed (m ∷ ms) = (0 < m.resolution) × AllIndexed ms

  -- In each segment, entries with a due bucket are reclaimed; `n` of them in all.
  pub data Swept (now : ℕ) : ℕ → List (Model K V) → List (Model K V) → Type 0 where
    nowhere : Swept now 0 [] []
    here :
        {n k : ℕ} {m m' : Model K V} {ms ms' : List (Model K V)}
        → Reclaims dec (due_bucket_id m.resolution now) n m m'
        → Swept now k ms ms'
        → Swept now (n + k) (m ∷ ms) (m' ∷ ms')

  pub length-Swept :
      {now n : ℕ} {ms ms' : List (Model K V)} → Swept now n ms ms' → length ms' ≡ length ms
  length-Swept nowhere = refl
  length-Swept (here r rest) = ap suc (length-Swept rest)

  -- What a sweep does to one of the models.
  pub Swept-at :
      {now n : ℕ} {ms ms' : List (Model K V)} (i : ℕ) (m : Model K V)
      → Swept now n ms ms'
      → get_elem? ms i ≡ some m
      → (k : ℕ) × (m' : Model K V) × (get_elem? ms' i ≡ some m')
        × Reclaims dec (due_bucket_id m.resolution now) k m m'
  Swept-at i m nowhere e = ground arith
  Swept-at {now} zero m (here {n = n} {m = d} {m' = m'} r rest) e =
      let same : d ≡ m = cc in
      (n, m', refl, subst (λ z. Reclaims dec (due_bucket_id z.resolution now) n z m') same r)
  Swept-at (suc i) m (here r rest) e = Swept-at i m rest e

  -- No entry has a due bucket.
  abbrev pub Clean : (now : ℕ) → List (Model K V) → Type 0
  Clean now [] = Unit {0}
  Clean now (m ∷ ms) =
      ((k : K) (c : Entry K V)
        → find dec k m.items ≡ some c
        → ¬ IsDue dec (due_bucket_id m.resolution now) m c)
      × Clean now ms

  pub Clean-at :
      (now : ℕ) (ms : List (Model K V)) (i : ℕ) (m : Model K V)
      → Clean now ms
      → get_elem? ms i ≡ some m
      → (k : K) (c : Entry K V) → find dec k m.items ≡ some c
      → ¬ IsDue dec (due_bucket_id m.resolution now) m c
  Clean-at now [] i m a e = ground arith
  Clean-at now (d ∷ ms) zero m a e =
      let same : d ≡ m = cc in
      subst
        (λ z.
          (k : K) (c : Entry K V)
          → find dec k z.items ≡ some c
          → ¬ IsDue dec (due_bucket_id z.resolution now) z c)
        same a.0
  Clean-at now (d ∷ ms) (suc i) m a e = Clean-at now ms i m a.1 e

  abbrev pub total : List (Model K V) → ℕ
  total [] = 0
  total (m ∷ ms) = length m.items + total ms

  pub total-Swept :
      {now n : ℕ} {ms ms' : List (Model K V)} → Swept now n ms ms' → total ms' + n ≡ total ms
  total-Swept nowhere = refl
  total-Swept (here r rest) = omega (arith, length-Reclaims dec r, total-Swept rest)

  pub Swept-refl : (now : ℕ) (ms : List (Model K V)) → Swept now 0 ms ms
  Swept-refl now [] = nowhere
  Swept-refl now (m ∷ ms) = here done (Swept-refl now ms)

  pub Swept-Indexed :
      {now n : ℕ} {ms ms' : List (Model K V)} → Swept now n ms ms' → AllIndexed ms → AllIndexed ms'
  Swept-Indexed nowhere a = tt
  Swept-Indexed (here r rest) (a, b) =
      (omega (arith, Reclaims-resolution dec r), Swept-Indexed rest b)

  pub Swept-trans :
      {now n k : ℕ} {ms ms' ms'' : List (Model K V)}
      → Swept now n ms ms'
      → Swept now k ms' ms''
      → Swept now (n + k) ms ms''
  Swept-trans nowhere nowhere = nowhere
  Swept-trans {now} (here {n = n} {k = k} {m = m} {m' = m'} {ms = ms} r rest)
        (here {n = n'} {k = k'} {m' = m''} {ms' = ms''} r' rest') =
      subst (λ t. Swept now t (m ∷ ms) (m'' ∷ ms'')) (omega arith)
        (here
          (Reclaims-trans dec r (
            subst (λ z. Reclaims dec (due_bucket_id z now) n' m' m'') (Reclaims-resolution dec r)
              r'))
          (Swept-trans rest rest'))

  module _ (now batch_size entry_budget : ℕ) (some_batch : 0 < batch_size)
      (some_budget : 0 < entry_budget) where
    -- A round does not panic. If it says that there is more, it has removed something.
    pass-Refines :
        (remaining : ℕ) (ts : List (StorageSegment K V)) (ms : List (Model K V))
        → AllRefine ts ms
        → AllIndexed ms
        → (ts' : List (StorageSegment K V)) × (left removed : ℕ) × (more : Bool) × (ms' : List
            (Model K V))
          × (cleanup_pass dec now batch_size entry_budget remaining ts
              ≡ ok (ts', left, removed, more))
          × Swept now removed ms ms'
          × AllRefine ts' ms'
          × (more ≡ true → 0 < removed)
          × (more ≡ false → Clean now ms')
    unfolding cleanup_pass
    pass-Refines remaining [] [] a i =
        ([], remaining, 0, false, [], refl, nowhere, tt, λ e. ground arith, λ e. tt)
    pass-Refines remaining [] (m ∷ ms) a i = elim a [ ]
    pass-Refines remaining (t ∷ ts) [] a i = elim a [ ]
    pass-Refines remaining (t ∷ ts) (m ∷ ms) (r, a) (on, i) =
        let available = if remaining == 0 then entry_budget else remaining in
        let (t', n, pending, m', e, s, q, le, full, idle) =
          cleanup_expired-Refines dec index_laws now (min batch_size available) r on
            (ground arith) in
        let (ts', left, k, more, ms', e', s', q', full', idle') =
          pass-Refines (available - n) ts ms a i in
        (
          t' ∷ ts',
          left,
          n + k,
          pending || more,
          m' ∷ ms',
          ground (arith, e, e'),
          here s s',
          (q, q'),
          λ h. ground (arith, full, full'),
          λ h. (
            subst
                (λ z.
                  (k : K) (c : Entry K V)
                  → find dec k m'.items ≡ some c
                  → ¬ IsDue dec (due_bucket_id z now) m' c)
                (sym (Reclaims-resolution dec s)) (idle (ground arith)),
            idle' (ground arith),
          ),
        )

    -- Enough rounds clear every due entry.
    rounds-Refines :
        (fuel : ℕ) (ts : List (StorageSegment K V)) (ms : List (Model K V))
        → total ms < fuel
        → AllRefine ts ms
        → AllIndexed ms
        → (ts' : List (StorageSegment K V)) × (n : ℕ) × (ms' : List (Model K V)) × (cleanup_rounds
              dec fuel now batch_size entry_budget ts
            ≡ ok (ts', n))
          × Swept now n ms ms'
          × AllRefine ts' ms'
          × Clean now ms'
    unfolding cleanup_rounds
    rounds-Refines zero ts ms lt a i = absurd (omega arith)
    rounds-Refines (suc fuel) ts ms lt a i =
        let (ts', left, n, more, ms', e, s, q, some_removed, idle) =
          pass-Refines entry_budget ts ms a i in
        elim (Bool-cases more) [
          | inr last ↦ (ts', n, ms', ground (arith, e, last), s, q, idle last)
          | inl again ↦
              let (ts'', k, ms'', e', s', q', clean) =
                rounds-Refines fuel ts' ms' (omega (arith, total-Swept s, some_removed again)) q
                  (Swept-Indexed s i) in
              (ts'', n + k, ms'', ground (arith, e, again, e'), Swept-trans s s', q', clean)
        ]

    total-AllRefine :
        (ts : List (StorageSegment K V)) (ms : List (Model K V))
        → AllRefine ts ms
        → entry_count dec ts ≡ total ms
    total-AllRefine [] [] a = refl
    total-AllRefine [] (m ∷ ms) a = elim a [ ]
    total-AllRefine (t ∷ ts) [] a = elim a [ ]
    total-AllRefine (t ∷ ts) (m ∷ ms) (r, a) =
        omega (arith, length-Refines dec index_laws r, total-AllRefine ts ms a)

    -- A cleanup changes nothing but the segments.
    pub segments-Clean :
        (s : Storage K V) (ms : List (Model K V))
        → AllRefine s.segments ms
        → AllIndexed ms
        → (ts : List (StorageSegment K V)) × (n : ℕ) × (ms' : List (Model K V)) × (cleanup_expired
              dec now batch_size entry_budget s
            ≡ ok (record s { segments = ts }, n))
          × Swept now n ms ms'
          × AllRefine ts ms'
          × Clean now ms'
    unfolding cleanup_expired
    segments-Clean s ms a i =
        let (ts, n, ms', e, sw, q, clean) =
          rounds-Refines (suc (entry_count dec s.segments)) s.segments ms
            (omega (arith, total-AllRefine s.segments ms a)) a i in
        (ts, n, ms', ground (arith, e), sw, q, clean)

    -- For a positive batch size and entry budget, on segments that stand for models with an
    -- expiration index, a cleanup of the whole storage ends without a panic. It reclaims entries
    -- whose bucket is due and no others, returns how many there were, and leaves none.
    pub cleanup_expired-Clean :
        (s : Storage K V) (ms : List (Model K V))
        → AllRefine s.segments ms
        → AllIndexed ms
        → (t : Storage K V) × (n : ℕ) × (ms' : List (Model K V)) × (cleanup_expired dec now
              batch_size entry_budget s
            ≡ ok (t, n))
          × Swept now n ms ms'
          × AllRefine t.segments ms'
          × Clean now ms'
    cleanup_expired-Clean s ms a i =
        let (ts, n, ms', e, sw, q, clean) = segments-Clean s ms a i in
        (record s { segments = ts }, n, ms', e, sw, q, clean)
