-- ===== src/Loads/Agreement.antt =====
-- Callers of load.go with the same key share one call and its outcome.
use pacecache.Prelude.{
  ℕ, ◌<◌, ◌≡◌, inl, inr, refl, sym, ap, ◌∙◌, subst, true, false, Option, none, some, Option-cases,
  arith, ok,
}
use pacecache.Prelude.Int.{ℤ}
use pacecache.Errors.{Error, panic_error, goexit}
use pacecache.Types.{no_load_result}
use pacecache.Loads.{
  loaded, failed, panicked_with, ended, Shard, Request, Env, Outcome, Pc, waiting, left, advance,
  after_wait,
}
use pacecache.Loads.Invariant.{owned, Inv}
use pacecache.Loads.Moves.{Move, quiet, begun, advance-Move, group-apply, Steps-Inv, start-Inv}
use pacecache.Loads.System.{
  nobody, one, everybody, Target, target, forgets, System, Step, load, perform, Steps, stay, more,
  start,
}
use pacecache.Singleflight.{
  Waited, blocked, canceled, panicking, exiting, delivered, CallPtr, Call, Group, no_calls,
  start_call, completed, delivery, wait, find_call,
}
use pacecache.Singleflight.Fields.{
  SameOutcome, same_outcome, forget-SameOutcome, forget_all-SameOutcome, calls-do_call,
  fresh-forget, fresh-forget_all, fresh-do_call,
}
use pacecache.Types.{LoadResult}

-- A call that was started and is done.
pub record Done {K V : Type 0} (g : Group K V) (c : CallPtr) : Type 0 where
  pub below : c < g.fresh
  pub done : (g.calls c).done ≡ true

-- The call is still done, with the same outcome.
pub record Kept {K V : Type 0} (g g' : Group K V) (c : CallPtr) : Type 0 where
  pub below : c < g'.fresh
  pub same : SameOutcome (g'.calls c) (g.calls c)

module _ {K V : Type 0} {c : CallPtr} where
  Kept-refl : (g : Group K V) → Done g c → Kept g g c
  Kept-refl g d = record { below = d.below; same = same_outcome (g.calls c) }

  Kept-Done : {g g' : Group K V} → Kept g g' c → Done g c → Done g' c
  Kept-Done k d = record { below = k.below; done = k.same.done ∙ d.done }

  Kept-trans : {g g' g'' : Group K V} → Kept g g' c → Kept g' g'' c → Kept g g'' c
  Kept-trans a b = record {
    below = b.below;
    same = record {
      val = b.same.val ∙ a.same.val;
      err = b.same.err ∙ a.same.err;
      dups = b.same.dups ∙ a.same.dups;
      done = b.same.done ∙ a.same.done;
    };
  }

module _ {K V : Type 0} (dec : Discrete K) where
  forgets-Kept :
      (keys : Target K) (g : Group K (LoadResult V)) (c : CallPtr)
      → Done g c
      → Kept g (forgets dec keys g) c
  forgets-Kept nobody g c d = Kept-refl g d
  forgets-Kept (one key) g c d = record {
    below = ground (arith, fresh-forget dec key g, d.below);
    same = forget-SameOutcome dec key g c;
  }
  forgets-Kept everybody g c d = record {
    below = ground (arith, fresh-forget_all g, d.below);
    same = forget_all-SameOutcome g c;
  }

  module _ (requests : ℕ → Request K) where
    Move-Kept :
        (i : ℕ) (c : CallPtr) {g g' : Group K (LoadResult V)} {pc : ℕ → Pc V} {q : Pc V}
        → Inv dec requests g pc
        → Move dec (requests i).key g (pc i) g' q
        → Done g c
        → Kept g g' c
    unfolding start_call
    Move-Kept i c {g} inv (quiet own wait) d = Kept-refl g d
    Move-Kept i c {g} {g'} inv (begun idle st) d = record {
      below = ground (arith, d.below);
      same =
          subst (λ x. SameOutcome x (g.calls c))
            (elim (Option-cases (find_call dec (requests i).key g.m)) [
              | inl e ↦ ground (arith, d.below)
              | inr (b, e) ↦ ground (arith, d.done, inv.in_flight (requests i).key b e)
            ])
            (same_outcome (g.calls c));
    }
    Move-Kept i c {g} inv (Move.ended {c = b} ran own) d = record {
      below = ground (arith, fresh-do_call dec (requests i).key g b ran, d.below);
      same =
          subst (λ x. SameOutcome x (g.calls c))
            (ground
              (arith, d.done, calls-do_call dec (requests i).key g b ran c, inv.owner i b own))
            (same_outcome (g.calls c));
    }

    module _ (ttl : ℤ) (jitter : ℕ) where
      Step-Kept :
          {s t : System K V} (c : CallPtr)
          → Inv dec requests s.shard.group s.pc
          → Step dec ttl jitter requests s t
          → Done s.shard.group c
          → Kept s.shard.group t.shard.group c
      Step-Kept {s} c inv (load i env {t} {p} e) d =
          Move-Kept i c inv (advance-Move dec ttl jitter (requests i) env (s.pc i) s.shard t p e) d
      Step-Kept {s} c inv (perform op {t} e) d =
          subst (λ g. Kept s.shard.group g c) (sym (group-apply dec op s.shard t e))
            (forgets-Kept (target op) s.shard.group c d)

      Steps-Kept :
          {s t : System K V} (c : CallPtr)
          → Inv dec requests s.shard.group s.pc
          → Steps dec ttl jitter requests s t
          → Done s.shard.group c
          → Kept s.shard.group t.shard.group c
      Steps-Kept {s} c inv stay d = Kept-refl s.shard.group d
      Steps-Kept c inv (more rest st) d =
          let kept = Steps-Kept c inv rest d in
          Kept-trans kept
            (Step-Kept c (Steps-Inv dec ttl jitter requests rest inv) st (Kept-Done kept d))

module _ {V : Type 0} where
  completed-SameOutcome : (c d : Call (LoadResult V)) → SameOutcome c d → completed c ≡ completed d
  completed-SameOutcome c d same = ground (arith, same.val, same.err, same.dups)

  -- Where a caller of a call that is done leaves to.
  abbrev pub leaving : (w : Waited (LoadResult V)) → Outcome V
  leaving blocked = ended
  leaving (canceled err) = failed err
  leaving (panicking value) = panicked_with value
  leaving exiting = ended
  leaving (delivered val (some err) shared) = failed err
  leaving (delivered none none shared) = loaded no_load_result
  leaving (delivered (some r) none shared) = loaded r

  pub delivery-left :
      {K : Type 0} (err : Option Error) (call : Call (LoadResult V)) (c : CallPtr) (s : Shard K V)
      → (after_wait c (delivery err call) s).1 ≡ left (leaving (delivery err call))
  delivery-left none call c s = ground arith
  delivery-left (some (panic_error value)) call c s = refl
  delivery-left (some goexit) call c s = refl
  delivery-left (some _) call c s = refl

module _ {K V : Type 0} (dec : Discrete K) (ttl : ℤ) (jitter : ℕ) where
  waiting-advance :
      (req : Request K) (env : Env V) (c : CallPtr) (s : Shard K V)
      → env.context ≡ none
      → (s.group.calls c).done ≡ true
      → advance dec ttl jitter req env (waiting c) s
        ≡ ok (after_wait c (completed (s.group.calls c)) s)
  unfolding advance wait
  waiting-advance req env c s alive d = rw (alive, d) refl

  module _ (requests : ℕ → Request K) (s₀ : Shard K V) (none_yet : s₀.group ≡ no_calls)
      (x : System K V) (before : Steps dec ttl jitter requests (start s₀) x) where
    now-Inv : Inv dec requests x.shard.group x.pc
    now-Inv = Steps-Inv dec ttl jitter requests before (start-Inv dec requests s₀ none_yet)

    -- Callers and operations interleave in any order on one segment, from a group without calls. If
    -- a caller waits for a call that is done, and some caller waits for the same call after any
    -- further steps, then both, with contexts that are not done, leave at their next step, with the
    -- same outcome.
    pub callers-agree :
        (i j : ℕ) (c : CallPtr) (u : System K V)
        → x.pc i ≡ waiting c
        → (x.shard.group.calls c).done ≡ true
        → Steps dec ttl jitter requests x u
        → u.pc j ≡ waiting c
        → (env env' : Env V) → env.context ≡ none
        → env'.context ≡ none
        → (o : Outcome V) × (s t : Shard K V) × (advance dec ttl jitter
              (requests i)
              env
              (x.pc i)
              x.shard
            ≡ ok (s, left o))
          × (advance dec ttl jitter (requests j) env' (u.pc j) u.shard ≡ ok (t, left o))
    callers-agree i j c u at d after at' env env' alive alive' =
        let kept =
          Steps-Kept dec requests ttl jitter c now-Inv after
            (record { below = (now-Inv.waiter i c (ground arith)).0; done = d }) in
        let call = x.shard.group.calls c in
        let call' = u.shard.group.calls c in
        let same : completed call' ≡ completed call = completed-SameOutcome call' call kept.same in
        (
          leaving (completed call),
          (after_wait c (completed call) x.shard).0,
          (after_wait c (completed call) u.shard).0,
          rw (at, waiting-advance (requests i) env c x.shard alive d)
              (ap (λ p. ok ((after_wait c (completed call) x.shard).0, p))
                (delivery-left call.err call c x.shard)),
          rw (at', waiting-advance (requests j) env' c u.shard alive' (kept.same.done ∙ d), same)
              (ap (λ p. ok ((after_wait c (completed call) u.shard).0, p))
                (delivery-left call.err call c u.shard)),
        )

    -- Callers and operations interleave in any order on one segment, from a group without calls.
    -- Then two callers with the same key that own calls of which neither was forgotten are the same
    -- caller: of the loads that no mutation has superseded, at most one runs for a key.
    pub single_flight :
        (i j : ℕ) (c d : CallPtr)
        → owned (x.pc i) ≡ some c
        → owned (x.pc j) ≡ some d
        → (requests i).key ≡ (requests j).key
        → (x.shard.group.calls c).forgotten ≡ false
        → (x.shard.group.calls d).forgotten ≡ false
        → i ≡ j
    single_flight i j c d own own' same live live' =
        now-Inv.single i j c own (ground (arith, now-Inv.owner i c own, now-Inv.owner j d own'))
