-- ===== src/Loads/Barrier.antt =====
-- The publication barrier of load.go: what a mutation forgets is never published.
use pacecache.Prelude.{ℕ, ◌<◌, ◌≡◌, inl, inr, refl, sym, subst, true, none, some, arith, ok}
use pacecache.Prelude.Int.{ℤ}
use pacecache.Errors.{load_superseded}
use pacecache.Loads.{
  Shard, Request, Env, Pc, publishing, ending, advance, load_publish, record_stats,
}
use pacecache.Loads.Invariant.{owned, Inv}
use pacecache.Loads.Moves.{
  Move, quiet, begun, ended, advance-Move, group-apply, Steps-Inv, start-Inv,
}
use pacecache.Loads.System.{
  nobody, one, everybody, Target, target, Operation, forgets, apply, System, Step, load, perform,
  Steps, stay, more, start,
}
use pacecache.Singleflight.{CallPtr, Group, no_calls, start_call, returned, forget_all}
use pacecache.Singleflight.Barrier.{marks_stay}
use pacecache.Singleflight.Fields.{
  fresh-forget, forgotten-forget_self, forgotten-forget, forgotten-forget_all, fresh-forget_all,
  calls-do_call, fresh-do_call, forgotten-settle,
}
use pacecache.Stats.{count_load_superseded}
use pacecache.Types.{LoadResult}

-- The key is among those that an operation changes.
abbrev pub Hits : {K : Type 0} → Target K → K → Type 0
Hits nobody k = ⊥
Hits (one key) k = key ≡ k
Hits everybody k = Unit {0}

-- A call that was started and forgotten.
abbrev pub Forgotten : {K V : Type 0} → Group K V → CallPtr → Type 0
Forgotten g c = (c < g.fresh) × ((g.calls c).forgotten ≡ true)

module _ {K V : Type 0} (dec : Discrete K) where
  forgets-Forgotten :
      (keys : Target K) (g : Group K (LoadResult V)) (c : CallPtr)
      → Forgotten g c
      → Forgotten (forgets dec keys g) c
  unfolding forget_all
  forgets-Forgotten nobody g c f = f
  forgets-Forgotten (one key) g c (lt, e) =
      (ground (arith, fresh-forget dec key g), forgotten-forget dec key g c e)
  forgets-Forgotten everybody g c (lt, e) =
      (ground (arith, fresh-forget_all g), marks_stay dec g.m g.calls c e)

  module _ (requests : ℕ → Request K) where
    -- The call that a caller owns is forgotten by an operation on its key.
    forgets-owned :
        {g : Group K (LoadResult V)} {pc : ℕ → Pc V}
        → Inv dec requests g pc
        → (keys : Target K) (i : ℕ) (c : CallPtr) → owned (pc i) ≡ some c
        → Hits keys (requests i).key
        → Forgotten (forgets dec keys g) c
    forgets-owned inv nobody i c own hit = absurd hit
    forgets-owned {g} inv (one key) i c own hit =
        let (lt, d, how) = inv.owner i c own in
        (
          ground (arith, fresh-forget dec key g),
          elim how [
            | inl f ↦ forgotten-forget_self dec key g c (rw hit f)
            | inr f ↦ forgotten-forget dec key g c f
          ],
        )
    forgets-owned {g} inv everybody i c own hit =
        let (lt, d, how) = inv.owner i c own in
        (ground (arith, fresh-forget_all g), forgotten-forget_all dec (requests i).key g c how)

    Move-Forgotten :
        (k : K) {g g' : Group K (LoadResult V)} {p q : Pc V} (c : CallPtr)
        → Move dec k g p g' q
        → Forgotten g c
        → Forgotten g' c
    unfolding start_call
    Move-Forgotten k c (quiet own wait) f = f
    Move-Forgotten k {g} {g'} c (begun idle st) f = (ground arith, ground arith)
    Move-Forgotten k {g} c (ended {c = d} ran own) (lt, f) = (
      ground (arith, fresh-do_call dec k g d ran),
      ground (arith, calls-do_call dec k g d ran c, forgotten-settle ran (g.calls d)),
    )

    module _ (ttl : ℤ) (jitter : ℕ) where
      Step-Forgotten :
          {s t : System K V} (c : CallPtr)
          → Step dec ttl jitter requests s t
          → Forgotten s.shard.group c
          → Forgotten t.shard.group c
      Step-Forgotten {s} c (load i env {t} {p} e) f =
          Move-Forgotten (requests i).key c
            (advance-Move dec ttl jitter (requests i) env (s.pc i) s.shard t p e) f
      Step-Forgotten {s} c (perform op {t} e) f =
          subst (λ g. Forgotten g c) (sym (group-apply dec op s.shard t e))
            (forgets-Forgotten (target op) s.shard.group c f)

      Steps-Forgotten :
          {s t : System K V} (c : CallPtr)
          → Steps dec ttl jitter requests s t
          → Forgotten s.shard.group c
          → Forgotten t.shard.group c
      Steps-Forgotten c stay f = f
      Steps-Forgotten c (more rest st) f = Step-Forgotten c st (Steps-Forgotten c rest f)

      pub publish-Forgotten :
          (req : Request K) (env : Env V) (c : CallPtr) (r : LoadResult V) (refresh_ttl : ℕ)
          (s : Shard K V)
          → (s.group.calls c).forgotten ≡ true
          → advance dec ttl jitter req env (publishing c r refresh_ttl) s
            ≡ ok (
              record_stats count_load_superseded s,
              ending c (returned none (some load_superseded)),
            )
      unfolding advance load_publish
      publish-Forgotten req env c r refresh_ttl s f = rw f refl

      -- Callers and operations interleave in any order on one segment, from a group without calls.
      -- If an operation that changes a key, or Clear, takes place after a caller has come to own a
      -- call for that key, then, whatever steps follow, when this caller is about to publish what
      -- its loader returned without an error, it stores nothing, counts a superseded load, and ends
      -- the call with ErrLoadSuperseded.
      pub mutation-supersedes :
          (s₀ s : Shard K V) (x u : System K V) (op : Operation K V)
          → s₀.group ≡ no_calls
          → Steps dec ttl jitter requests (start s₀) x
          → (i : ℕ) (c : CallPtr) → owned (x.pc i) ≡ some c
          → Hits (target op) (requests i).key
          → apply dec op x.shard ≡ ok s
          → Steps dec ttl jitter requests (record x { shard = s }) u
          → (r : LoadResult V) (refresh_ttl : ℕ) (env : Env V) → u.pc i ≡ publishing c r refresh_ttl
          → advance dec ttl jitter (requests i) env (u.pc i) u.shard
            ≡ ok (
              record_stats count_load_superseded u.shard,
              ending c (returned none (some load_superseded)),
            )
      mutation-supersedes s₀ s x u op none_yet before i c own hit e after r refresh_ttl env at =
          let inv = Steps-Inv dec ttl jitter requests before (start-Inv dec requests s₀ none_yet) in
          let f : Forgotten s.group c =
            subst (λ g. Forgotten g c) (sym (group-apply dec op x.shard s e))
              (forgets-owned inv (target op) i c own hit) in
          rw at (
            publish-Forgotten (requests i) env c r refresh_ttl u.shard
              (Steps-Forgotten c after f).1)
