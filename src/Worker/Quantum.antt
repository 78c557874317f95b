-- ===== src/Worker/Quantum.antt =====
-- A quantum of the worker of cleanup.go ends, stays in its entry budget, and says that nothing is
-- left only if nothing is.
use pacecache.Prelude.{
  ℕ, suc, ◌+◌, ◌%◌, ◌≤◌, ◌<◌, ◌≡◌, inl, inr, refl, sym, ap, ◌∙◌, subst, Bool, true, false,
  Bool-cases, List, ok, length, has, arith, ◌==◌,
}
use pacecache.Segment.Model.{Model}
use pacecache.Storage.{Storage}
use pacecache.Storage.At.{length-AllRefine}
use pacecache.Storage.Drain.{AllRefine, AllIndexed, Swept, Clean}
use pacecache.Worker.{
  Worker, stopped, passed, cleanup_single_segment, cleanup_listed, cleanup_pending,
  cleanup_segments, cleanup_quantum, around,
}
use native.Mathlib.Nat.{mod-lt}
use pacecache.Worker.Around.{around-all, around-within}
use pacecache.Worker.Sweep.{CleanAt, CleanAt, Clean-all}
use pacecache.Worker.Batches.{Sweep, none-Sweep, both-Sweep, batches-Refines}
use pacecache.Worker.Passes.{Pass-cases, Ended, listed-Refines}
use pacecache.Worker.Rounds.{pending-Refines}

module _ {K V : Type 0} (dec : Discrete K) (exceeded : ℕ → Bool) (now : ℕ) where
  module _ (w : Worker) (s t : Storage K V) (some_segment : (length s.segments == 0) ≡ false) where
    abbrev first_pass : List ℕ
    first_pass = around (length s.segments) w.next_segment 0 (length s.segments)

    segments-stop :
        (i : ℕ)
        → cleanup_listed dec exceeded now w.batch_size 0 w.entry_budget first_pass s
          ≡ ok (t, stopped i)
        → cleanup_segments dec exceeded now w s ≡ ok (t, record w { next_segment = i }, true)
    unfolding cleanup_segments
    segments-stop i e = rw (some_segment, e, cleanup_segments) refl

    segments-step :
        (checks left : ℕ) (later : List ℕ)
        → cleanup_listed dec exceeded now w.batch_size 0 w.entry_budget first_pass s
          ≡ ok (t, passed checks left later)
        → cleanup_segments dec exceeded now w s
          ≡ cleanup_pending dec exceeded now
              (suc w.entry_budget)
              checks
              left
              later
              (record w { next_segment = (w.next_segment + 1) % length s.segments })
              t
    unfolding cleanup_segments
    segments-step checks left later e = rw (some_segment, e, cleanup_segments) refl

  pub segments-Refines :
      (w : Worker) (s : Storage K V) (ms : List (Model K V))
      → 0 < w.batch_size
      → AllRefine dec s.segments ms
      → AllIndexed dec ms
      → (t : Storage K V) × (w' : Worker) × (more : Bool) × (n : ℕ) × (ms' : List (Model K V))
        × (cleanup_segments dec exceeded now w s ≡ ok (t, w', more))
        × Sweep dec exceeded now w.entry_budget n ms ms' t
        × (0 < length ms → w'.next_segment < length ms)
        × (more ≡ false → Clean dec now ms')
  unfolding cleanup_segments
  segments-Refines w s ms batch a on = elim (Bool-cases (length s.segments == 0)) [
    | inl nothing ↦ (
      s,
      w,
      false,
      0,
      ms,
      rw (nothing, cleanup_segments) refl,
      none-Sweep dec exceeded now w.entry_budget s ms a on,
      λ h. ground (arith, length-AllRefine dec s.segments ms a),
      λ h. Clean-all dec now ms (λ i lt. ground (arith, length-AllRefine dec s.segments ms a)),
    )
    | inr some_segment ↦
        let size = length-AllRefine dec s.segments ms a in
        let first = around (length s.segments) w.next_segment 0 (length s.segments) in
        let (t, pass, n, ms', e, sw, end) =
          listed-Refines dec exceeded now w.batch_size 0 w.entry_budget first s ms batch
            (λ i h. ground (
              arith,
              size,
              around-within (length s.segments) w.next_segment 0 (length s.segments) i,
            ))
            a on in
        elim (Pass-cases pass) [
          | inl (i, stop) ↦
              let at : has i first ≡ true =
                subst (Ended dec exceeded now first w.entry_budget n ms') stop end in
              (
                t,
                record w { next_segment = i },
                true,
                n,
                ms',
                segments-stop w s t some_segment i (e ∙ ap (λ p. ok (t, p)) stop),
                sw,
                λ h. ground (
                  arith,
                  size,
                  around-within (length s.segments) w.next_segment 0 (length s.segments) i,
                ),
                λ h. ground arith,
              )
          | inr (checks, left, later, pass_on) ↦
              let (sum, cover, within, some_removed) =
                subst (Ended dec exceeded now first w.entry_budget n ms') pass_on end in
              let w1 = record w { next_segment = (w.next_segment + 1) % length s.segments } in
              let (u, w', more, k, ms'', e', rest, next, clean) =
                pending-Refines dec exceeded now (suc w.entry_budget) checks left later w1 t ms'
                  batch (λ h. omega (arith, sum))
                  (λ i h. ground (
                    arith,
                    size,
                    within i h,
                    sw.same_length,
                    around-within (length s.segments) w.next_segment 0 (length s.segments) i,
                  ))
                  (λ i lt. cover i (
                    around-all (length s.segments) w.next_segment i
                      (omega (arith, size, sw.same_length))))
                  sw.refines sw.indexed in
              (
                u,
                w',
                more,
                n + k,
                ms'',
                segments-step w s t some_segment checks left later (e ∙ ap (λ p. ok (t, p)) pass_on)
                    ∙ e',
                both-Sweep dec exceeded now {k = k} {ms'' = ms''} {u = u} sw
                    (subst (λ b. Sweep dec exceeded now b k ms' ms'' u) (omega (arith, sum)) rest),
                λ h. elim next [
                  | inl same ↦
                      subst (λ z. z < length ms) (sym same)
                        (subst (λ z. (w.next_segment + 1) % length s.segments < z) size
                          (mod-lt (w.next_segment + 1) {m = length s.segments} (ground arith)))
                  | inr lt ↦ omega (arith, sw.same_length)
                ],
                clean,
              )
        ]
  ]

  -- For a positive batch size and a next segment that exists, on segments that stand for models
  -- with an expiration index, and whenever the time budget is used up, a quantum of the background
  -- worker ends without a panic. It reclaims entries whose bucket is due and no others, at most as
  -- many as the entry budget; the next segment exists again; and it says that nothing is pending
  -- only if no due entry is left.
  pub quantum-Refines :
      (w : Worker) (s : Storage K V) (ms : List (Model K V))
      → 0 < w.batch_size
      → w.next_segment < length s.segments
      → AllRefine dec s.segments ms
      → AllIndexed dec ms
      → (t : Storage K V) × (w' : Worker) × (more : Bool) × (n : ℕ) × (ms' : List (Model K V))
        × (cleanup_quantum dec exceeded now w s ≡ ok (t, w', more))
        × Swept dec now n ms ms'
        × AllRefine dec t.segments ms'
        × (n ≤ w.entry_budget)
        × (w'.next_segment < length t.segments)
        × (more ≡ false → Clean dec now ms')
  unfolding cleanup_quantum cleanup_single_segment
  quantum-Refines w s ms batch next a on = elim (Bool-cases (length s.segments == 1)) [
    | inl one ↦
        let size = length-AllRefine dec s.segments ms a in
        let (t, more, n, ms', e, sw, idle) =
          batches-Refines dec exceeded now (suc w.entry_budget) w.batch_size 0 w.entry_budget s ms
            batch (omega arith) (ground (arith, size)) a on in
        (
          t,
          w,
          more,
          n,
          ms',
          rw (one, e) refl,
          sw.swept,
          sw.refines,
          sw.within,
          ground (arith, size, length-AllRefine dec t.segments ms' sw.refines, sw.same_length),
          λ h. Clean-all dec now ms' (λ i lt.
              let first : 0 ≡ i = ground (arith, size, sw.same_length) in
              subst (λ j. CleanAt dec now ms' j) first (idle h)),
        )
    | inr many ↦
        let size = length-AllRefine dec s.segments ms a in
        let (t, w', more, n, ms', e, sw, fits, clean) = segments-Refines w s ms batch a on in
        (
          t,
          w',
          more,
          n,
          ms',
          rw (many, e) refl,
          sw.swept,
          sw.refines,
          sw.within,
          omega (
            arith,
            size,
            length-AllRefine dec t.segments ms' sw.refines,
            sw.same_length,
            fits (omega (arith, size)),
          ),
          clean,
        )
  ]
