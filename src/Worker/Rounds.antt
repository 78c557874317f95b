-- ===== src/Worker/Rounds.antt =====
-- Passes of the worker of cleanup.go over the segments that have more, until none has.
use pacecache.Prelude.{
  ℕ, zero, suc, ◌+◌, ◌<◌, ◌≡◌, ◌⊎◌, inl, inr, refl, ap, ◌∙◌, subst, Bool, true, false, List, [],
  ◌∷◌, ok, length, has, arith,
}
use pacecache.Segment.Model.{Model}
use pacecache.Storage.{Storage}
use pacecache.Storage.Drain.{AllRefine, AllIndexed, Clean}
use pacecache.Worker.{Worker, stopped, passed, cleanup_listed, cleanup_pending}
use pacecache.Worker.Sweep.{CleanAt, CleanAt-Swept, Clean-all}
use pacecache.Worker.Batches.{Sweep, none-Sweep, both-Sweep}
use pacecache.Worker.Passes.{InRange, Pass-cases, Ended, listed-Refines}

module _ {K V : Type 0} (dec : Discrete K) (exceeded : ℕ → Bool) (now : ℕ) where
  module _ (fuel checks remaining index : ℕ) (indexes : List ℕ) (w : Worker)
      (s t : Storage K V) where
    pending-stop :
        (i : ℕ)
        → cleanup_listed dec exceeded now w.batch_size checks remaining (index ∷ indexes) s
          ≡ ok (t, stopped i)
        → cleanup_pending dec exceeded now (suc fuel) checks remaining (index ∷ indexes) w s
          ≡ ok (t, record w { next_segment = i }, true)
    unfolding cleanup_pending
    pending-stop i e = rw e refl

    pending-step :
        (checks' left : ℕ) (later : List ℕ)
        → cleanup_listed dec exceeded now w.batch_size checks remaining (index ∷ indexes) s
          ≡ ok (t, passed checks' left later)
        → cleanup_pending dec exceeded now (suc fuel) checks remaining (index ∷ indexes) w s
          ≡ cleanup_pending dec exceeded now fuel checks' left later w t
    unfolding cleanup_pending
    pending-step checks' left later e = rw e refl

  -- Every segment that is not pending is clean.
  abbrev pub Covered : List ℕ → List (Model K V) → Type 0
  Covered pending ms = (i : ℕ) → i < length ms → (has i pending ≡ true) ⊎ CleanAt dec now ms i

  pub pending-Refines :
      (fuel checks remaining : ℕ) (pending : List ℕ) (w : Worker) (s : Storage K V)
      (ms : List (Model K V))
      → 0 < w.batch_size
      → (0 < length pending → remaining < fuel)
      → InRange pending (length ms)
      → Covered pending ms
      → AllRefine dec s.segments ms
      → AllIndexed dec ms
      → (t : Storage K V) × (w' : Worker) × (more : Bool) × (n : ℕ) × (ms' : List (Model K V))
        × (cleanup_pending dec exceeded now fuel checks remaining pending w s ≡ ok (t, w', more))
        × Sweep dec exceeded now remaining n ms ms' t
        × ((w'.next_segment ≡ w.next_segment) ⊎ (w'.next_segment < length ms))
        × (more ≡ false → Clean dec now ms')
  unfolding cleanup_pending
  pending-Refines fuel checks remaining [] w s ms batch lt range covered a on = (
    s,
    w,
    false,
    0,
    ms,
    refl,
    none-Sweep dec exceeded now remaining s ms a on,
    inl refl,
    λ h.
        Clean-all dec now ms
          (λ i lt'. elim (covered i lt') [ inl p ↦ absurd (ground arith) | inr clean ↦ clean ]),
  )
  pending-Refines zero checks remaining (index ∷ indexes) w s ms batch lt range covered a on =
      absurd (ground arith)
  pending-Refines (suc fuel) checks remaining (index ∷ indexes) w s ms batch lt range covered a on =
      let (t, pass, n, ms', e, sw, end) =
        listed-Refines dec exceeded now w.batch_size checks remaining (index ∷ indexes) s ms batch
          range a on in
      elim (Pass-cases pass) [
        | inl (i, stop) ↦
            let at : has i (index ∷ indexes) ≡ true =
              subst (Ended dec exceeded now (index ∷ indexes) remaining n ms') stop end in
            (
              t,
              record w { next_segment = i },
              true,
              n,
              ms',
              pending-stop fuel checks remaining index indexes w s t i
                  (e ∙ ap (λ p. ok (t, p)) stop),
              sw,
              inr (range i at),
              λ h. ground arith,
            )
        | inr (checks', left, later, pass_on) ↦
            let (sum, cover, within, some_removed) =
              subst (Ended dec exceeded now (index ∷ indexes) remaining n ms') pass_on end in
            let (u, w', more, k, ms'', e', rest, next, clean) =
              pending-Refines fuel checks' left later w t ms' batch
                (λ h. ground (arith, some_removed h, lt (omega arith), sum))
                (λ i h. ground (arith, range i, within i, sw.same_length))
                (λ i lt'. elim (covered i (ground (arith, sw.same_length))) [
                  | inl p ↦ cover i p
                  | inr clean ↦ inr (CleanAt-Swept dec now sw.swept i clean)
                ])
                sw.refines sw.indexed in
            (
              u,
              w',
              more,
              n + k,
              ms'',
              pending-step fuel checks remaining index indexes w s t checks' left later
                    (e ∙ ap (λ p. ok (t, p)) pass_on)
                  ∙ e',
              both-Sweep dec exceeded now {k = k} {ms'' = ms''} {u = u} sw
                  (subst (λ b. Sweep dec exceeded now b k ms' ms'' u) (omega arith) rest),
              ground (arith, next, sw.same_length),
              clean,
            )
      ]
