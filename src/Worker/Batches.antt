-- ===== src/Worker/Batches.antt =====
-- A segment alone under the worker of cleanup.go, batch after batch.
use pacecache.Prelude.{
  ℕ, zero, suc, ◌+◌, ◌-◌, ◌≤◌, ◌<◌, ◌≡◌, inl, inr, min, refl, ◌∙◌, Bool, true, false, ◌||◌,
  Bool-cases, List, ok, length, arith, ◌==◌,
}
use pacecache.Segment.Model.{Model}
use pacecache.Storage.{Storage}
use pacecache.Storage.At.{length-AllRefine}
use pacecache.Storage.Drain.{AllRefine, AllIndexed, Swept, Swept-refl, Swept-trans, Swept-Indexed}
use pacecache.Worker.{cleanup_batches}
use pacecache.Worker.Sweep.{CleanAt, length-Swept, batch-Refines}

module _ {K V : Type 0} (dec : Discrete K) (exceeded : ℕ → Bool) (now : ℕ) where
  -- What a part of a quantum does to the storage, at most `budget` entries at a time.
  pub record Sweep (budget n : ℕ) (ms ms' : List (Model K V)) (t : Storage K V) : Type 0 where
    pub swept : Swept dec now n ms ms'
    pub refines : AllRefine dec t.segments ms'
    pub within : n ≤ budget
    pub indexed : AllIndexed dec ms'
    pub same_length : length ms' ≡ length ms

  pub none-Sweep :
      (budget : ℕ) (s : Storage K V) (ms : List (Model K V))
      → AllRefine dec s.segments ms
      → AllIndexed dec ms
      → Sweep budget 0 ms ms s
  none-Sweep budget s ms a on = record {
    swept = Swept-refl dec now ms;
    refines = a;
    within = omega arith;
    indexed = on;
    same_length = refl;
  }

  pub one-Sweep :
      {n : ℕ} (limit budget : ℕ) (ms ms' : List (Model K V)) (t : Storage K V)
      → AllIndexed dec ms
      → Swept dec now n ms ms'
      → AllRefine dec t.segments ms'
      → n ≤ limit
      → limit ≤ budget
      → Sweep budget n ms ms' t
  one-Sweep limit budget ms ms' t on sw a le fits = record {
    swept = sw;
    refines = a;
    within = omega arith;
    indexed = Swept-Indexed dec sw on;
    same_length = length-Swept dec now sw;
  }

  pub both-Sweep :
      {n k budget : ℕ} {ms ms' ms'' : List (Model K V)} {t u : Storage K V}
      → Sweep budget n ms ms' t
      → Sweep (budget - n) k ms' ms'' u
      → Sweep budget (n + k) ms ms'' u
  both-Sweep a b = record {
    swept = Swept-trans dec a.swept b.swept;
    refines = b.refines;
    within = omega (arith, a.within, b.within);
    indexed = b.indexed;
    same_length = b.same_length ∙ a.same_length;
  }

  pub batches-Refines :
      (fuel batch_size checks remaining : ℕ) (s : Storage K V) (ms : List (Model K V))
      → 0 < batch_size
      → remaining < fuel
      → 0 < length ms
      → AllRefine dec s.segments ms
      → AllIndexed dec ms
      → (t : Storage K V) × (more : Bool) × (n : ℕ) × (ms' : List (Model K V)) × (cleanup_batches
            dec exceeded now fuel batch_size checks remaining s
          ≡ ok (t, more))
        × Sweep remaining n ms ms' t
        × (more ≡ false → CleanAt dec now ms' 0)
  unfolding cleanup_batches
  batches-Refines zero batch_size checks remaining s ms batch lt nonempty a on =
      absurd (omega arith)
  batches-Refines (suc fuel) batch_size checks remaining s ms batch lt nonempty a on =
      elim (Bool-cases ((remaining == 0) || exceeded checks)) [
        | inl over ↦ (
          s,
          true,
          0,
          ms,
          rw (over, cleanup_batches) refl,
          none-Sweep remaining s ms a on,
          λ h. ground arith,
        )
        | inr go ↦
            let (t, n, more, ms', e, sw, q, le, full, idle) =
              batch-Refines dec now 0 (min batch_size remaining) s ms a on
                (ground (arith, length-AllRefine dec s.segments ms a)) (ground arith) in
            let first : Sweep remaining n ms ms' t =
              one-Sweep (min batch_size remaining) remaining ms ms' t on sw q le (omega arith) in
            elim (Bool-cases more) [
              | inr last ↦
                  (t, false, n, ms', rw (go, e, last, cleanup_batches) refl, first, λ h. idle last)
              | inl again ↦
                  let (u, more', k, ms'', e', rest, idle') =
                    batches-Refines fuel batch_size (checks + 1) (remaining - n) t ms' batch
                      (ground (arith, full again)) (omega (arith, first.same_length)) q
                      first.indexed in
                  (
                    u,
                    more',
                    n + k,
                    ms'',
                    rw (go, e, again, cleanup_batches) e',
                    both-Sweep {k = k} {ms'' = ms''} {u = u} first rest,
                    idle',
                  )
            ]
      ]
