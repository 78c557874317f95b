-- ===== src/Singleflight/Fields.antt =====
-- What the operations of internal/singleflight/group.go do to each key of the map and to each call.
use pacecache.Prelude.{
  ◌≡◌, ◌≢◌, ◌⊎◌, refl, true, none, some, Option-cases, inl, inr, List, [], ◌∷◌, arith,
  if◌then◌else◌, ◌==◌, ite,
}
use pacecache.Chain.{write}
use pacecache.Singleflight.{
  CallPtr, Call, Group, Ran, find_call, mark_forgotten, settle, forget, finish, do_call,
  forget_entries, forget_all,
}
use pacecache.Singleflight.Barrier.{
  marked, marks_stay, find_call-delete_call, find_call-delete_call_ne,
}

-- What a caller that waits reads of a call.
pub record SameOutcome {V : Type 0} (c d : Call V) : Type 0 where
  pub val : c.val ≡ d.val
  pub err : c.err ≡ d.err
  pub dups : c.dups ≡ d.dups
  pub done : c.done ≡ d.done

abbrev pub same_outcome : {V : Type 0} (c : Call V) → SameOutcome c c
same_outcome c = record { val = refl; err = refl; dups = refl; done = refl }

module _ {K V : Type 0} (dec : Discrete K) (k : K) where
  find_call-finish :
      (g : Group K V) (c : CallPtr) (i : K)
      → find_call dec i (finish dec k c g).m ≡ (elim (find_call dec k g.m) [
        | none ↦ find_call dec i g.m
        | some d ↦ if d == c then ite (dec k i) none (find_call dec i g.m) else find_call dec i g.m
      ])
  unfolding finish
  find_call-finish g c i =
      ground (arith, find_call-delete_call dec k g.m, find_call-delete_call_ne dec k i g.m)

  calls-finish :
      (g : Group K V) (c d : CallPtr)
      → (finish dec k c g).calls d
        ≡ (if d == c then record (g.calls c) { done = true } else g.calls d)
  unfolding finish
  calls-finish g c d = ground arith

  fresh-finish : (g : Group K V) (c : CallPtr) → (finish dec k c g).fresh ≡ g.fresh
  unfolding finish
  fresh-finish g c = ground arith

module _ {K V : Type 0} (dec : Discrete K) (k : K) (g : Group K V) where
  pub find_call-forget :
      (i : K) → find_call dec i (forget dec k g).m ≡ ite (dec k i) none (find_call dec i g.m)
  unfolding forget
  find_call-forget i =
      ground (arith, find_call-delete_call dec k g.m, find_call-delete_call_ne dec k i g.m)

  pub fresh-forget : (forget dec k g).fresh ≡ g.fresh
  unfolding forget
  fresh-forget = ground arith

  pub forget-SameOutcome : (c : CallPtr) → SameOutcome ((forget dec k g).calls c) (g.calls c)
  unfolding forget
  forget-SameOutcome c = elim (Option-cases (find_call dec k g.m)) [
    | inl e ↦ rw (e, forget) (same_outcome (g.calls c))
    | inr (d, e) ↦ record {
      val = ground arith;
      err = ground arith;
      dups = ground arith;
      done = ground arith;
    }
  ]

  pub forgotten-forget_self :
      (c : CallPtr) → find_call dec k g.m ≡ some c → ((forget dec k g).calls c).forgotten ≡ true
  unfolding forget
  forgotten-forget_self c e = ground arith

  pub forgotten-forget :
      (c : CallPtr) → (g.calls c).forgotten ≡ true → ((forget dec k g).calls c).forgotten ≡ true
  unfolding forget
  forgotten-forget c e = ground arith

  pub forgotten-forget_ne :
      (c : CallPtr)
      → find_call dec k g.m ≢ some c
      → ((forget dec k g).calls c).forgotten ≡ (g.calls c).forgotten
  unfolding forget
  forgotten-forget_ne c ne = ground arith

  module _ (c : CallPtr) (ran : Ran V) where
    pub find_call-do_call :
        (i : K)
        → find_call dec i (do_call dec k c ran g).m ≡ (elim (find_call dec k g.m) [
          | none ↦ find_call dec i g.m
          | some d ↦
              if d == c then ite (dec k i) none (find_call dec i g.m) else find_call dec i g.m
        ])
    unfolding do_call
    find_call-do_call i =
        find_call-finish dec k (record g { calls = write g.calls c (settle ran (g.calls c)) }) c i

    pub calls-do_call :
        (d : CallPtr)
        → (do_call dec k c ran g).calls d
          ≡ (if d == c then record (settle ran (g.calls c)) { done = true } else g.calls d)
    unfolding do_call
    calls-do_call d = ground (
      arith,
      calls-finish dec k (record g { calls = write g.calls c (settle ran (g.calls c)) }) c d,
    )

    pub fresh-do_call : (do_call dec k c ran g).fresh ≡ g.fresh
    unfolding do_call
    fresh-do_call =
        fresh-finish dec k (record g { calls = write g.calls c (settle ran (g.calls c)) }) c

module _ {K V : Type 0} where
  forget_entries-SameOutcome :
      (m : List (K × CallPtr)) (calls : CallPtr → Call V) (c : CallPtr)
      → SameOutcome (forget_entries m calls c) (calls c)
  forget_entries-SameOutcome [] calls c = same_outcome (calls c)
  forget_entries-SameOutcome ((j, p) ∷ m) calls c =
      let rest = forget_entries-SameOutcome m (mark_forgotten calls p) c in
      record {
        val = ground (arith, rest.val);
        err = ground (arith, rest.err);
        dups = ground (arith, rest.dups);
        done = ground (arith, rest.done);
      }

  pub forget_all-SameOutcome :
      (g : Group K V) (c : CallPtr) → SameOutcome ((forget_all g).calls c) (g.calls c)
  unfolding forget_all
  forget_all-SameOutcome g c = forget_entries-SameOutcome g.m g.calls c

  pub fresh-forget_all : (g : Group K V) → (forget_all g).fresh ≡ g.fresh
  unfolding forget_all
  fresh-forget_all g = refl

-- A call that is in the map or was forgotten before is forgotten after `ForgetAll`.
pub forgotten-forget_all :
    {K V : Type 0} (dec : Discrete K) (k : K) (g : Group K V) (c : CallPtr)
    → (find_call dec k g.m ≡ some c) ⊎ ((g.calls c).forgotten ≡ true)
    → ((forget_all g).calls c).forgotten ≡ true
unfolding forget_all
forgotten-forget_all dec k g c (inl e) = marked dec k g.m g.calls c e
forgotten-forget_all dec k g c (inr e) = marks_stay dec g.m g.calls c e

-- The outcome of a call is not its flag.
pub forgotten-settle :
    {V : Type 0} (ran : Ran V) (c : Call V) → (settle ran c).forgotten ≡ c.forgotten
forgotten-settle ran c = ground arith
