-- ===== src/Cache/Expired.antt =====
-- `DeleteExpired` of delete.go: a live entry stays, and no entry stays for long after its deadline.
use pacecache.Prelude.{
  ℕ, ◌+◌, ◌≤◌, ◌<◌, ◌≡◌, refl, sym, ap, ◌∙◌, false, some, List, ok, length, get_elem?, arith, ◌⊎◌,
  inl, inr, dec_lt, ℕ_discrete,
}
use pacecache.Cache.{Cache, delete_expired, get, record_cleanup}
use pacecache.Cache.Publish.{get-held}
use pacecache.Cache.Removal.{still_routed}
use pacecache.Cache.Steps.{AllIndexed-at}
use pacecache.Cache.Valid.{Valid, AllRoomy, model_capacity}
use pacecache.Expiration.Buckets.{due-expired, expired-due}
use pacecache.Expiration.{due_bucket_id}
use pacecache.Segment.Cleanup.{IsDue, Reclaims-max_entries, find-Reclaims}
use pacecache.Segment.Model.{Model, find}
use pacecache.Segment.{Entry, is_expired}
use pacecache.Storage.At.{length-AllRefine}
use pacecache.Storage.Drain.{
  Swept, nowhere, here, segments-Clean, Swept-at, Swept-Indexed, Clean-at, length-Swept, total,
  total-Swept,
}
use pacecache.Storage.{segment_index, segment_mask}

module _ {K V : Type 0} (dec : Discrete K) where
  Swept-Roomy :
      {now n : ℕ} {ms ms' : List (Model K V)} → Swept dec now n ms ms' → AllRoomy ms → AllRoomy ms'
  Swept-Roomy nowhere a = tt
  Swept-Roomy (here r rest) (p, a) = (omega (arith, Reclaims-max_entries dec r), Swept-Roomy rest a)

  Swept-capacity :
      {now n : ℕ} {ms ms' : List (Model K V)}
      → Swept dec now n ms ms'
      → model_capacity ms' ≡ model_capacity ms
  Swept-capacity nowhere = refl
  Swept-capacity (here r rest) = omega (arith, Reclaims-max_entries dec r, Swept-capacity rest)

  -- An entry that is live has no due bucket.
  live-IsDue :
      (now : ℕ) (m : Model K V) (e : Entry K V)
      → 0 < m.resolution
      → is_expired e now ≡ false
      → ¬ IsDue dec (due_bucket_id m.resolution now) m e
  live-IsDue now m e on live due =
      ground (arith, due-expired m.resolution e.deadline on now due.1, due)

  live_before :
      (e : Entry K V) (now later : ℕ)
      → now ≤ later
      → is_expired e later ≡ false
      → is_expired e now ≡ false
  live_before e now later le live = ground arith

  -- In a valid cache, a cleanup of the whole storage succeeds.
  delete_expired-Valid :
      (c : Cache K V) (ms : List (Model K V)) (now : ℕ)
      → Valid dec c ms
      → (c' : Cache K V) × (n : ℕ) × (ms' : List (Model K V)) × (delete_expired dec now c
          ≡ ok (c', n))
        × (length c'.store.segments ≡ length c.store.segments)
        × Swept dec now n ms ms'
        × Valid dec c' ms'
        × ((i : ℕ) (m : Model K V)
            → get_elem? ms' i ≡ some m
            → (k : K) (e : Entry K V) → find dec k m.items ≡ some e
            → ¬ IsDue dec (due_bucket_id m.resolution now) m e)
  unfolding delete_expired record_cleanup
  delete_expired-Valid c ms now v =
      let (ts, n, ms', e, sw, q, clean) =
        segments-Clean dec now c.batch_size c.entry_budget v.batch v.budget c.store ms v.refines
          v.indexed in
      let size : length ts ≡ length c.store.segments =
        length-AllRefine dec ts ms' q
        ∙ length-Swept dec sw
        ∙ sym (length-AllRefine dec c.store.segments ms v.refines) in
      (
        record_cleanup (record c { store = record c.store { segments = ts } }),
        n,
        ms',
        rw e refl,
        size,
        sw,
        record {
          refines = q;
          indexed = Swept-Indexed dec sw v.indexed;
          roomy = Swept-Roomy sw v.roomy;
          capacity = Swept-capacity sw ∙ v.capacity;
          some_segment = rw size v.some_segment;
          word = rw size v.word;
          mask = v.mask ∙ ap segment_mask (sym size);
          groups = v.groups ∙ sym size;
          batch = v.batch;
          budget = v.budget;
        },
        λ i m at. Clean-at dec now ms' i m clean at,
      )

  -- In a valid cache, DeleteExpired succeeds, leaves a valid cache, and returns how many entries
  -- are gone. A key whose entry is live at a time not before the cleanup is still found at that
  -- time, with its value, by a Get after the cleanup; and an entry that is left has no deadline, or
  -- its deadline and one bucket resolution add up to more than the time of the cleanup and a
  -- nanosecond.
  pub delete_expired-exact :
      (hash : K → ℕ) (c : Cache K V) (ms : List (Model K V)) (now : ℕ)
      → Valid dec c ms
      → (c' : Cache K V) × (n : ℕ) × (ms' : List (Model K V)) × (delete_expired dec now c
          ≡ ok (c', n))
        × Valid dec c' ms'
        × (total dec ms' + n ≡ total dec ms)
        × ((k : K) (e : Entry K V) (m : Model K V) (later : ℕ)
            → get_elem? ms (segment_index hash c.store k) ≡ some m
            → find dec k m.items ≡ some e
            → now ≤ later
            → is_expired e later ≡ false
            → (c'' : Cache K V) × (get dec hash k later c' ≡ ok (c'', some e.value)))
        × ((i : ℕ) (m : Model K V)
            → get_elem? ms' i ≡ some m
            → (k : K) (e : Entry K V) → find dec k m.items ≡ some e
            → (e.deadline ≡ 0) ⊎ (now + 1 < e.deadline + m.resolution))
  delete_expired-exact hash c ms now v =
      let (c', n, ms', run, size, sw, v', clean) = delete_expired-Valid c ms now v in
      (
        c',
        n,
        ms',
        run,
        v',
        total-Swept dec sw,
        λ k e m later at held le live.
            let (r, m', at', gone) = Swept-at dec (segment_index hash c.store k) m sw at in
            let on = AllIndexed-at dec (segment_index hash c.store k) ms m v.indexed at in
            get-held dec hash c' ms' k e m' later v'
              (rw (still_routed dec hash c ms v k c' ms' v' size) at')
              (find-Reclaims dec k e gone held
                (live-IsDue now m e on (live_before e now later le live)))
              live,
        λ i m at k e held. elim (dec_lt (now + 1) (e.deadline + m.resolution)) [
          | yes soon ↦ inr soon
          | no late ↦ elim (ℕ_discrete e.deadline 0) [
            | yes never ↦ inl never
            | no some_deadline ↦ absurd (
                clean i m at k e held (
                  some_deadline,
                  expired-due m.resolution e.deadline (AllIndexed-at dec i ms' m v'.indexed at) now
                      (omega arith),
                ))
          ]
        ],
      )
