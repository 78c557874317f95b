-- ===== src/Worker/Passes.antt =====
-- A pass of the worker of cleanup.go over a list of segments.
use pacecache.Prelude.{
  ℕ_discrete, ℕ, ◌+◌, ◌-◌, ◌≤◌, ◌<◌, ◌≡◌, ◌⊎◌, inl, inr, min, refl, sym, subst, Bool, true, false,
  ◌||◌, Bool-cases, List, [], ◌∷◌, ok, length, has, arith, ◌==◌,
}
use pacecache.Segment.Model.{Model}
use pacecache.Storage.{Storage}
use pacecache.Storage.At.{length-AllRefine}
use pacecache.Storage.Drain.{AllRefine, AllIndexed, Swept}
use pacecache.Worker.{Pass, stopped, passed, also_pending, cleanup_expired_at, cleanup_listed}
use pacecache.Worker.Sweep.{CleanAt, CleanAt-Swept, batch-Refines}
use pacecache.Worker.Batches.{Sweep, none-Sweep, one-Sweep, both-Sweep}

abbrev pub InRange : List ℕ → ℕ → Type 0
InRange indexes count = (i : ℕ) → has i indexes ≡ true → i < count

pub Pass-cases :
    (p : Pass)
    → ((i : ℕ) × (p ≡ stopped i))
      ⊎ ((checks remaining : ℕ) × (pending : List ℕ) × (p ≡ passed checks remaining pending))
Pass-cases (stopped i) = inl (i, refl)
Pass-cases (passed checks remaining pending) = inr (checks, remaining, pending, refl)

module _ {K V : Type 0} (dec : Discrete K) (exceeded : ℕ → Bool) (now : ℕ) where
  -- How a pass over a list of segments may end.
  abbrev pub Ended : List ℕ → (budget n : ℕ) → List (Model K V) → Pass → Type 0
  Ended indexes budget n ms' (stopped i) = has i indexes ≡ true
  Ended indexes budget n ms' (passed checks remaining pending) =
      (remaining + n ≡ budget)
      × ((i : ℕ) → has i indexes ≡ true → (has i pending ≡ true) ⊎ CleanAt dec now ms' i)
      × ((i : ℕ) → has i pending ≡ true → has i indexes ≡ true)
      × (0 < length pending → 0 < n)

  -- A segment before the rest of a pass.
  Ended-cons :
      (index : ℕ) (indexes : List ℕ) (more : Bool) (budget n k : ℕ) (ms' ms'' : List (Model K V))
      (pass : Pass)
      → n ≤ budget
      → (more ≡ true → 0 < n)
      → (more ≡ false → CleanAt dec now ms' index)
      → Swept dec now k ms' ms''
      → Ended indexes (budget - n) k ms'' pass
      → Ended (index ∷ indexes) budget (n + k) ms'' (also_pending index more pass)
  Ended-cons index indexes more budget n k ms' ms'' (stopped i) le some_more idle sw end =
      ground arith
  Ended-cons index indexes true budget n k ms' ms'' (passed checks rem pending) le some_more idle sw
        (a, b, c, d) =
      (
        omega arith,
        λ i h. elim (ℕ_discrete i index) [
          | yes same ↦ inl (ground arith)
          | no ne ↦ elim (b i (ground arith)) [ inl p ↦ inl (ground arith) | inr clean ↦ inr clean ]
        ],
        λ i h. ground (arith, c i),
        λ h. ground (arith, some_more),
      )
  Ended-cons index indexes false budget n k ms' ms'' (passed checks rem pending) le some_more idle
        sw (a, b, c, d) =
      (
        omega arith,
        λ i h. elim (ℕ_discrete i index) [
          | yes same ↦ inr (
              subst (λ j. CleanAt dec now ms'' j) (sym same)
                (CleanAt-Swept dec now sw index (idle refl)))
          | no ne ↦ b i (ground arith)
        ],
        λ i h. ground (arith, c i),
        λ h. ground (arith, d),
      )

  module _ (batch_size checks remaining index : ℕ) (indexes : List ℕ) (s t u : Storage K V) where
    listed-step :
        (n : ℕ) (more : Bool) (pass : Pass)
        → ((remaining == 0) || exceeded checks) ≡ false
        → cleanup_expired_at dec now index (min batch_size remaining) s ≡ ok (t, (n, more))
        → cleanup_listed dec exceeded now batch_size (checks + 1) (remaining - n) indexes t
          ≡ ok (u, pass)
        → cleanup_listed dec exceeded now batch_size checks remaining (index ∷ indexes) s
          ≡ ok (u, also_pending index more pass)
    unfolding cleanup_listed
    listed-step n more pass go e e' = rw (go, e, e', cleanup_listed) refl

  pub listed-Refines :
      (batch_size checks remaining : ℕ) (indexes : List ℕ) (s : Storage K V) (ms : List (Model K V))
      → 0 < batch_size
      → InRange indexes (length ms)
      → AllRefine dec s.segments ms
      → AllIndexed dec ms
      → (t : Storage K V) × (pass : Pass) × (n : ℕ) × (ms' : List (Model K V)) × (cleanup_listed dec
            exceeded now batch_size checks remaining indexes s
          ≡ ok (t, pass))
        × Sweep dec exceeded now remaining n ms ms' t
        × Ended indexes remaining n ms' pass
  unfolding cleanup_listed
  listed-Refines batch_size checks remaining [] s ms batch range a on = (
    s,
    passed checks remaining [],
    0,
    ms,
    refl,
    none-Sweep dec exceeded now remaining s ms a on,
    (omega arith, λ i h. inl h, λ i h. h, λ h. ground arith),
  )
  listed-Refines batch_size checks remaining (index ∷ indexes) s ms batch range a on =
      elim (Bool-cases ((remaining == 0) || exceeded checks)) [
        | inl over ↦ (
          s,
          stopped index,
          0,
          ms,
          rw (over, cleanup_listed) refl,
          none-Sweep dec exceeded now remaining s ms a on,
          ground arith,
        )
        | inr go ↦
            let (t, n, more, ms', e, sw, q, le, full, idle) =
              batch-Refines dec now index (min batch_size remaining) s ms a on
                (ground (arith, length-AllRefine dec s.segments ms a, range index))
                (ground arith) in
            let first : Sweep dec exceeded now remaining n ms ms' t =
              one-Sweep dec exceeded now (min batch_size remaining) remaining ms ms' t on sw q le
                (omega arith) in
            let (u, pass, k, ms'', e', rest, end) =
              listed-Refines batch_size (checks + 1) (remaining - n) indexes t ms' batch
                (λ i h. ground (arith, range i, first.same_length)) q first.indexed in
            (
              u,
              also_pending index more pass,
              n + k,
              ms'',
              listed-step batch_size checks remaining index indexes s t u n more pass go e e',
              both-Sweep dec exceeded now {k = k} {ms'' = ms''} {u = u} first rest,
              Ended-cons index indexes more remaining n k ms' ms'' pass first.within
                  (λ h. ground (arith, full h)) idle rest.swept end,
            )
      ]
