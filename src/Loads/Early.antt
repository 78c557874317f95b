-- ===== src/Loads/Early.antt =====
-- The returns of `getOrLoad` of load.go before a call is started.
use pacecache.Prelude.{
  inl, inr, Bool-cases, Option-cases, if◌then◌else◌, ℕ, ◌≡◌, refl, sym, ap, ◌∙◌, subst, Bool, true,
  false, Option, none, some, List, ◌∷◌, arith, ok,
}
use pacecache.Prelude.Int.{ℤ}
use pacecache.Errors.{Error, no_loader, context_is_nil}
use pacecache.Expiration.Index.Laws.{index_laws}
use pacecache.Loads.{
  Shard, Request, Env, Outcome, loaded, failed, Pc, entered, missed, left, advance, load_lookup,
  load_start, run_load,
}
use pacecache.Loads.Lone.{run_load-step, left-stays}
use pacecache.Segment.{Entry, snapshot}
use pacecache.Segment.Model.{Model, read}
use pacecache.Segment.Reads.{lookup_entry-Refines, counted}
use pacecache.Segment.Refines.{Refines}
use pacecache.Storage.{StorageSegment}
use pacecache.Types.{cached_result}

-- What a caller leaves with before it has a call: `found` is the entry that its lookup finds, and
-- `context` the error of its context after that.
abbrev pub early_return :
    {K V : Type 0}
    → (has_context : Bool) → (found : Option (Entry K V)) → (context : Option Error)
    → (has_loader : Bool) → Option (Outcome V)
early_return false found context has_loader = some (failed context_is_nil)
early_return true (some d) context has_loader = some (loaded (cached_result (snapshot d)))
early_return true none (some err) has_loader = some (failed err)
early_return true none none false = some (failed no_loader)
early_return true none none true = none

module _ {K V : Type 0} (dec : Discrete K) (ttl : ℤ) (jitter : ℕ) (req : Request K) (s : Shard K V)
    (m : Model K V) (r : Refines dec index_laws s.segment m) (e0 e1 : Env V)
    (envs : List (Env V)) where
  -- The caller leaves with `o` when it has only looked the key up, and no call is touched.
  abbrev LeavesWith : Outcome V → Type 0
  LeavesWith o =
      (t : StorageSegment K V) × (run_load dec ttl jitter req (e0 ∷ e1 ∷ envs) entered s
        ≡ ok (record s { segment = t }, left o))
      × Refines dec index_laws t (counted (read dec req.key e0.now m)).0

  enter :
      (p : Pc V) (t : Shard K V) (o : Outcome V)
      → advance dec ttl jitter req e0 entered s ≡ ok (t, p)
      → run_load dec ttl jitter req (e1 ∷ envs) p t ≡ ok (t, left o)
      → run_load dec ttl jitter req (e0 ∷ e1 ∷ envs) entered s ≡ ok (t, left o)
  enter p t o e f = run_load-step dec ttl jitter req e0 (e1 ∷ envs) entered p s t e ∙ f

  no_context :
      req.has_context ≡ false
      → run_load dec ttl jitter req (e0 ∷ e1 ∷ envs) entered s
        ≡ ok (s, left (failed context_is_nil))
  unfolding advance load_lookup
  no_context e =
      enter (left (failed context_is_nil)) s (failed context_is_nil) (rw e refl)
        (left-stays dec ttl jitter req (e1 ∷ envs) (failed context_is_nil) s)

  module _ (with_context : req.has_context ≡ true) where
    hit :
        (d : Entry K V)
        → (read dec req.key e0.now m).1 ≡ some d
        → LeavesWith (loaded (cached_result (snapshot d)))
    unfolding advance load_lookup
    hit d found =
        let (t, e, q) = lookup_entry-Refines dec index_laws r req.key e0.now in
        let o = loaded (cached_result (snapshot d)) in
        (
          t,
          enter (left o) (record s { segment = t }) o (rw (with_context, e, found) refl)
              (left-stays dec ttl jitter req (e1 ∷ envs) o (record s { segment = t })),
          q,
        )

    miss :
        (o : Outcome V)
        → (read dec req.key e0.now m).1 ≡ none
        → ((u : Shard K V) → load_start dec req e1 u ≡ (u, left o))
        → LeavesWith o
    unfolding advance load_lookup
    miss o absent early =
        let (t, e, q) = lookup_entry-Refines dec index_laws r req.key e0.now in
        let u : Shard K V = record s { segment = t } in
        (
          t,
          enter missed u o (rw (with_context, e, absent) refl) (
              run_load-step dec ttl jitter req e1 envs missed (left o) u u (ap ok (early u))
              ∙ left-stays dec ttl jitter req envs o u),
          q,
        )

  -- The segment after the lookup, if there is one.
  abbrev pub looked_up : Bool → Model K V
  looked_up has_context = if has_context then (counted (read dec req.key e0.now m)).0 else m

  settled :
      (has : req.has_context ≡ true) (o o' : Outcome V)
      → o' ≡ o
      → LeavesWith o'
      → (t : StorageSegment K V) × (run_load dec ttl jitter req (e0 ∷ e1 ∷ envs) entered s
          ≡ ok (record s { segment = t }, left o))
        × Refines dec index_laws t (looked_up req.has_context)
  settled has o o' same leaves =
      let (t, e, q) = subst LeavesWith same leaves in
      (t, e, subst (λ b. Refines dec index_laws t (looked_up b)) (sym has) q)

  -- On a segment that stands for a model, a caller whose context is nil, or else which finds a live
  -- entry, or else whose context is done, or else which has no loader, leaves with the error of the
  -- first of these that holds, or with the entry. The group is as it was, and the segment is as a
  -- counted lookup of the key leaves it, or unchanged where the context is nil.
  pub load-early :
      (o : Outcome V)
      → early_return req.has_context (read dec req.key e0.now m).1 e1.context req.has_loader
        ≡ some o
      → (t : StorageSegment K V) × (run_load dec ttl jitter req (e0 ∷ e1 ∷ envs) entered s
          ≡ ok (record s { segment = t }, left o))
        × Refines dec index_laws t (looked_up req.has_context)
  unfolding load_start
  load-early o early = elim (Bool-cases req.has_context) [
    | inr lacks ↦
        let same : failed context_is_nil ≡ o = ground arith in
        (
          s.segment,
          no_context lacks ∙ ap (λ x. ok (s, left x)) same,
          subst (λ b. Refines dec index_laws s.segment (looked_up b)) (sym lacks) r,
        )
    | inl has ↦ elim (Option-cases (read dec req.key e0.now m).1) [
      | inr (d, found) ↦
          settled has o (loaded (cached_result (snapshot d))) (ground arith) (hit has d found)
      | inl absent ↦ elim (Option-cases e1.context) [
        | inr (err, canceled) ↦
            settled has o (failed err) (ground arith)
              (miss has (failed err) absent (λ u. rw canceled refl))
        | inl alive ↦ elim (Bool-cases req.has_loader) [
          | inl with_loader ↦ absurd (ground arith)
          | inr lacks ↦
              settled has o (failed no_loader) (ground arith)
                (miss has (failed no_loader) absent (λ u. rw (alive, lacks) refl))
        ]
      ]
    ]
  ]
