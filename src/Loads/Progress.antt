-- ===== src/Loads/Progress.antt =====
-- A caller of load.go that waits is not left waiting: the owner of its call ends the call in at most
-- four of its own steps, whatever it reads.
use pacecache.Prelude.{
  ℕ, ◌<◌, ◌≤◌, ◌≡◌, ◌⊎◌, inl, inr, refl, ap, Bool, true, false, Option, none, some, List, [], ◌∷◌,
  ◌++◌, length, arith, ok,
}
use pacecache.Prelude.Int.{ℤ}
use pacecache.Errors.{Error}
use pacecache.Loads.{
  Shard, Request, Env, Outcome, Pc, entered, missed, owning, calling, publishing, ending, waiting,
  left, failed, after_wait, advance, load_recheck, load_publish, run_load,
}
use pacecache.Loads.Agreement.{leaving, delivery-left}
use pacecache.Loads.Invariant.{owned}
use pacecache.Loads.Moves.{Steps-Inv, start-Inv}
use pacecache.Loads.Sound.{Sound, advance-Sound, Steps-Sound}
use pacecache.Loads.System.{System, Steps, start}
use pacecache.Singleflight.{CallPtr, no_calls, wait, completed, Call, canceled}
use pacecache.Singleflight.Fields.{calls-do_call}
use pacecache.Types.{LoadResult}

-- How many steps the owner of a call has left at most.
abbrev pub rank : {V : Type 0} → Pc V → ℕ
rank (owning c) = 4
rank (calling c started_at) = 3
rank (publishing c r life) = 2
rank (ending c ran) = 1
rank _ = 0

rank-bound : {V : Type 0} (p : Pc V) → rank p ≤ 4
rank-bound p = ground arith

module _ {K V : Type 0} (dec : Discrete K) (ttl : ℤ) (jitter : ℕ) (req : Request K) where
  -- A step of an owner is nearer to the end, or is the end of the call.
  owner-advance :
      (env : Env V) (c : CallPtr) (p q : Pc V) (s t : Shard K V)
      → owned p ≡ some c
      → advance dec ttl jitter req env p s ≡ ok (t, q)
      → ((q ≡ waiting c) × ((t.group.calls c).done ≡ true))
        ⊎ ((owned q ≡ some c) × (rank q < rank p))
  unfolding advance load_recheck load_publish
  owner-advance env c entered q s t own e = ground arith
  owner-advance env c missed q s t own e = ground arith
  owner-advance env c (owning d) q s t own e = ground arith
  owner-advance env c (calling d started_at) q s t own e = ground arith
  owner-advance env c (publishing d r life) q s t own e = ground arith
  owner-advance env c (ending d ran) q s t own e =
      ground (arith, calls-do_call dec req.key s.group c ran c)
  owner-advance env c (waiting d) q s t own e = ground arith
  owner-advance env c (left o) q s t own e = ground arith

  -- An owner with enough steps ends its call within them.
  owner-ends :
      (envs : List (Env V)) (c : CallPtr) (p : Pc V) (s : Shard K V)
      → owned p ≡ some c
      → rank p ≤ length envs
      → Sound dec s.segment
      → (now rest : List (Env V)) × (t : Shard K V) × (envs ≡ now ++ rest)
        × (run_load dec ttl jitter req now p s ≡ ok (t, waiting c))
        × ((t.group.calls c).done ≡ true)
        × Sound dec t.segment
  unfolding run_load
  owner-ends [] c p s own le sound = absurd (ground arith)
  owner-ends (env ∷ envs) c p s own le sound =
      let (t, q, e, sound') = advance-Sound dec ttl jitter req env p s sound in
      elim (owner-advance env c p q s t own e) [
        | inl (at, d) ↦ (env ∷ [], envs, t, refl, rw e (ap (λ x. ok (t, x)) at), d, sound')
        | inr (own', lt) ↦
            let (now, rest, u, split, runs, d, sound'') =
              owner-ends envs c q t own' (omega arith) sound' in
            (env ∷ now, rest, u, ap (λ l. env ∷ l) split, rw e runs, d, sound'')
      ]

  -- A caller that waits for a call that is done leaves.
  wait-cases :
      (context : Option Error) (first : Bool) (call : Call (LoadResult V))
      → call.done ≡ true
      → (wait context first call ≡ completed call)
        ⊎ ((err : Error) × (wait context first call ≡ canceled err))
  unfolding wait
  wait-cases none first call d = inl (ground arith)
  wait-cases (some err) true call d = inr (err, ground arith)
  wait-cases (some err) false call d = inl (ground arith)

  done-leaves :
      (env : Env V) (c : CallPtr) (s : Shard K V)
      → (s.group.calls c).done ≡ true
      → (t : Shard K V) × (o : Outcome V) × (advance dec ttl jitter req env (waiting c) s
          ≡ ok (t, left o))
  unfolding advance
  done-leaves env c s d =
      let call = s.group.calls c in
      elim (wait-cases env.context env.context_first call d) [
        | inr (err, e) ↦ (s, failed err, rw e refl)
        | inl e ↦ (
          (after_wait c (completed call) s).0,
          leaving (completed call),
          rw e (
              ap (λ p. ok ((after_wait c (completed call) s).0, p))
                (delivery-left call.err call c s)),
        )
      ]

module _ {K V : Type 0} (dec : Discrete K) (ttl : ℤ) (jitter : ℕ) (requests : ℕ → Request K)
    (s₀ : Shard K V) (none_yet : s₀.group ≡ no_calls) (sound : Sound dec s₀.segment) where
  -- Callers and operations interleave in any order on one segment that always stands for some
  -- model, from a group without calls. If a caller waits for a call that is not done, then some
  -- caller with the same key owns that call and is not at its end; whatever its loader does and the
  -- clock says, at most four more steps of the owner complete the call without a panic of the
  -- cache, after which the waiter leaves at its next step.
  pub waiter-leaves :
      (x : System K V)
      → Steps dec ttl jitter requests (start s₀) x
      → (i : ℕ) (c : CallPtr) → x.pc i ≡ waiting c
      → (x.shard.group.calls c).done ≡ false
      → (j : ℕ) × (owned (x.pc j) ≡ some c)
        × ((requests j).key ≡ (requests i).key)
        × ((envs : List (Env V))
            → 4 ≤ length envs
            → (now rest : List (Env V)) × (t : Shard K V) × (envs ≡ now ++ rest)
              × (run_load dec ttl jitter (requests j) now (x.pc j) x.shard ≡ ok (t, waiting c))
              × ((env : Env V)
                  → (u : Shard K V) × (o : Outcome V) × (advance dec ttl jitter
                        (requests i)
                        env
                        (waiting c)
                        t
                      ≡ ok (u, left o))))
  waiter-leaves x steps i c at pending =
      let inv = Steps-Inv dec ttl jitter requests steps (start-Inv dec requests s₀ none_yet) in
      elim (inv.waiter i c (ground arith)).1 [
        | inl d ↦ absurd (ground arith)
        | inr (j, own, key) ↦ (
          j,
          own,
          key,
          λ envs le.
              let (now, rest, t, split, runs, d, _) =
                owner-ends dec ttl jitter (requests j) envs c (x.pc j) x.shard own
                  (omega (arith, rank-bound (x.pc j)))
                  (Steps-Sound dec ttl jitter requests steps sound) in
              (now, rest, t, split, runs, λ env. done-leaves dec ttl jitter (requests i) env c t d),
        )
      ]
