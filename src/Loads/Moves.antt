-- ===== src/Loads/Moves.antt =====
-- What a step of a caller of load.go does to the group of calls, and that each step keeps the
-- invariant.
use pacecache.Prelude.{
  ℕ, ◌≡◌, ◌⊎◌, inl, inr, sym, ap, subst, Bool, none, some, Option-cases, Bool-cases, arith, ok,
  if◌then◌else◌,
}
use pacecache.Prelude.Int.{ℤ}
use pacecache.Chain.{write}
use pacecache.Loads.{
  Shard, Request, Env, Pc, entered, missed, owning, calling, publishing, ending, waiting, left,
  advance, load_lookup, load_start, load_recheck, load_publish,
}
use pacecache.Loads.Invariant.{
  owned, awaited, Inv, quiet-Inv, start_call-Inv, do_call-Inv, forget-Inv, forget_all-Inv,
}
use pacecache.Loads.System.{
  nobody, one, everybody, Target, target, Operation, forgets, apply, System, Step, load, perform,
  Steps, stay, more,
}
use pacecache.Singleflight.{CallPtr, Group, Ran, no_calls, start_call, do_call}
use pacecache.Types.{LoadResult}

module _ {K V : Type 0} (dec : Discrete K) where
  -- The calls stay as they are, or one is started or joined, or one ends.
  pub data Move (k : K) (g : Group K (LoadResult V)) (p : Pc V)
      : Group K (LoadResult V) → Pc V → Type 0 where
    quiet :
        {q : Pc V}
        → owned q ≡ owned p
        → (awaited q ≡ none) ⊎ (awaited q ≡ awaited p)
        → Move k g p g q
    begun :
        {g' : Group K (LoadResult V)} {c : CallPtr} {new : Bool}
        → owned p ≡ none
        → start_call dec k g ≡ (g', c, new)
        → Move k g p g' (if new then owning c else waiting c)
    ended :
        {c : CallPtr} (ran : Ran (LoadResult V))
        → owned p ≡ some c
        → Move k g p (do_call dec k c ran g) (waiting c)

  quiet_at :
      (k : K) {g g' : Group K (LoadResult V)} {p q : Pc V}
      → g' ≡ g
      → owned q ≡ owned p
      → (awaited q ≡ none) ⊎ (awaited q ≡ awaited p)
      → Move k g p g' q
  quiet_at k {g} {p} {q} e own wait = subst (λ h. Move k g p h q) (sym e) (quiet own wait)

  begun_at :
      (k : K) {g g' : Group K (LoadResult V)} {p q : Pc V}
      → owned p ≡ none
      → g' ≡ (start_call dec k g).0
      → q ≡ (
          if (start_call dec k g).2
          then owning (start_call dec k g).1
          else waiting (start_call dec k g).1)
      → Move k g p g' q
  begun_at k {g} {g'} {p} idle e f =
      subst (λ q. Move k g p g' q) (sym f)
        (begun idle (ap (λ h. (h, (start_call dec k g).1, (start_call dec k g).2)) (sym e)))

  ended_at :
      (k : K) {g g' : Group K (LoadResult V)} {p q : Pc V} {c : CallPtr} (ran : Ran (LoadResult V))
      → owned p ≡ some c
      → g' ≡ do_call dec k c ran g
      → q ≡ waiting c
      → Move k g p g' q
  ended_at k {g} {g'} {p} {q} {c} ran own e f =
      subst (λ h. Move k g p h q) (sym e)
        (subst (λ q. Move k g p (do_call dec k c ran g) q) (sym f) (ended ran own))

  module _ (ttl : ℤ) (jitter : ℕ) (req : Request K) (env : Env V) where
    pub advance-Move :
        (p : Pc V) (s t : Shard K V) (q : Pc V)
        → advance dec ttl jitter req env p s ≡ ok (t, q)
        → Move req.key s.group p t.group q
    unfolding advance load_lookup load_start load_recheck load_publish
    advance-Move entered s t q e = quiet_at req.key (ground arith) (ground arith) (ground arith)
    advance-Move missed s t q e = elim (Option-cases env.context) [
      | inr (err, done) ↦ quiet_at req.key (ground arith) (ground arith) (ground arith)
      | inl alive ↦ elim (Bool-cases req.has_loader) [
        | inr lacks ↦ quiet_at req.key (ground arith) (ground arith) (ground arith)
        | inl has ↦ begun_at req.key (ground arith) (ground arith) (ground arith)
      ]
    ]
    advance-Move (owning c) s t q e = quiet_at req.key (ground arith) (ground arith) (ground arith)
    advance-Move (calling c started_at) s t q e =
        quiet_at req.key (ground arith) (ground arith) (ground arith)
    advance-Move (publishing c r refresh_ttl) s t q e =
        quiet_at req.key (ground arith) (ground arith) (ground arith)
    advance-Move (ending c ran) s t q e =
        ended_at req.key {c = c} ran (ground arith) (ground arith) (ground arith)
    advance-Move (waiting c) s t q e = quiet_at req.key (ground arith) (ground arith) (ground arith)
    advance-Move (left o) s t q e = quiet_at req.key (ground arith) (ground arith) (ground arith)

  pub group-apply :
      (op : Operation K V) (s t : Shard K V)
      → apply dec op s ≡ ok t
      → t.group ≡ forgets dec (target op) s.group
  unfolding apply
  group-apply op s t e = ground arith

  module _ (requests : ℕ → Request K) where
    Move-Inv :
        (i : ℕ) {g g' : Group K (LoadResult V)} {pc : ℕ → Pc V} {q : Pc V}
        → Inv dec requests g pc
        → Move (requests i).key g (pc i) g' q
        → Inv dec requests g' (write pc i q)
    Move-Inv i inv (quiet {q} own wait) = quiet-Inv dec requests inv i q own wait
    Move-Inv i {g' = g'} inv (begun {c = c} {new = new} idle st) =
        start_call-Inv dec requests inv i g' c new idle st
    Move-Inv i inv (ended {c = c} ran own) = do_call-Inv dec requests inv i c ran own

    forgets-Inv :
        (keys : Target K) {g : Group K (LoadResult V)} {pc : ℕ → Pc V}
        → Inv dec requests g pc
        → Inv dec requests (forgets dec keys g) pc
    forgets-Inv nobody inv = inv
    forgets-Inv (one key) inv = forget-Inv dec requests inv key
    forgets-Inv everybody inv = forget_all-Inv dec requests inv

  module _ (ttl : ℤ) (jitter : ℕ) (requests : ℕ → Request K) where
    pub Step-Inv :
        {s t : System K V}
        → Step dec ttl jitter requests s t
        → Inv dec requests s.shard.group s.pc
        → Inv dec requests t.shard.group t.pc
    Step-Inv {s} (load i env {t} {p} e) inv =
        Move-Inv requests i inv (advance-Move ttl jitter (requests i) env (s.pc i) s.shard t p e)
    Step-Inv {s} (perform op {t} e) inv =
        subst (λ g. Inv dec requests g s.pc) (sym (group-apply op s.shard t e))
          (forgets-Inv requests (target op) inv)

    pub Steps-Inv :
        {s t : System K V}
        → Steps dec ttl jitter requests s t
        → Inv dec requests s.shard.group s.pc
        → Inv dec requests t.shard.group t.pc
    Steps-Inv stay inv = inv
    Steps-Inv (more rest st) inv = Step-Inv st (Steps-Inv rest inv)

  pub start-Inv :
      (requests : ℕ → Request K) (s : Shard K V)
      → s.group ≡ no_calls
      → Inv dec requests s.group (λ _. entered)
  start-Inv requests s e = record {
    in_flight = λ k c f. ground arith;
    owner = λ j c f. ground arith;
    single = λ i j c f h. ground arith;
    waiter = λ i c f. ground arith;
  }
