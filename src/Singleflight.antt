-- ===== src/Singleflight.antt =====
-- internal/singleflight/group.go: the map from keys to calls in flight. A call is an address, and
-- its fields are in memory. Each operation is one step, under the lock of the group.
use pacecache.Prelude.{
  ℕ, suc, ◌+◌, ◌≡◌, ◌≢◌, refl, Bool, true, false, Option, none, some, List, [], ◌∷◌, ◌==◌,
  if◌then◌else◌, ite, ltb, not, ◌&&◌,
}
use pacecache.Chain.{write}
use pacecache.Errors.{Error, panic_error, goexit}
pub mod Barrier
pub mod Fields

abbrev pub CallPtr : Type 0
CallPtr = ℕ

-- `val` is none for the zero value; `done` says that the channel is closed.
pub record Call (V : Type 0) : Type 0 where
  pub val : Option V
  pub err : Option Error
  pub dups : ℕ
  pub forgotten : Bool
  pub done : Bool

-- The map as a list of its entries, and the calls that were allocated.
pub record Group (K V : Type 0) : Type 0 where
  pub m : List (K × CallPtr)
  pub calls : CallPtr → Call V
  pub fresh : CallPtr

abbrev pub new_call : {V : Type 0} → Call V
new_call = record { val = none; err = none; dups = 0; forgotten = false; done = false }

-- What the function of a call does: it returns, or it panics, or it ends its goroutine.
pub data Ran (V : Type 0) : Type 0 where
  returned : (val : Option V) → (err : Option Error) → Ran V
  panicked : (value : ℕ) → Ran V
  exited : Ran V

-- What a caller gets of `Wait`: nothing yet, the error of its context, the panic of the owner, the
-- end of its goroutine, or the result.
pub data Waited (V : Type 0) : Type 0 where
  blocked : Waited V
  canceled : (err : Error) → Waited V
  panicking : (value : ℕ) → Waited V
  exiting : Waited V
  delivered : (val : Option V) → (err : Option Error) → (shared : Bool) → Waited V

abbrev pub no_calls : {K V : Type 0} → Group K V
no_calls = record { m = []; calls = λ _. new_call; fresh = 0 }

abbrev pub mark_forgotten : {V : Type 0} → (CallPtr → Call V) → CallPtr → CallPtr → Call V
mark_forgotten calls p = write calls p (record (calls p) { forgotten = true })

-- What `DoCall` leaves in the fields of the call.
abbrev pub settle : {V : Type 0} → Ran V → Call V → Call V
settle (returned val err) c = record c { val = val; err = err }
settle (panicked value) c = record c { err = some (panic_error value) }
settle exited c = record c { err = some goexit }

-- A call that is done, for a caller that waits for it.
abbrev pub delivery : {V : Type 0} → Option Error → Call V → Waited V
delivery (some (panic_error value)) c = panicking value
delivery (some goexit) c = exiting
delivery err c = delivered c.val err (ltb 0 c.dups)

abbrev pub completed : {V : Type 0} → Call V → Waited V
completed c = delivery c.err c

-- `context` is the error of a context that is done. Where both channels are ready, `first` says
-- whether the select takes that of the context.
unfoldable pub wait : {V : Type 0} → (context : Option Error) → (first : Bool) → Call V → Waited V
wait context first c = elim context [
  | none ↦ if c.done then completed c else blocked
  | some e ↦ if c.done && not first then completed c else canceled e
]

module _ {K : Type 0} (dec : Discrete K) where
  abbrev pub find_call : K → List (K × CallPtr) → Option CallPtr
  find_call k [] = none
  find_call k ((j, p) ∷ m) = ite (dec j k) (some p) (find_call k m)

  -- `delete(group.m, key)`
  abbrev pub delete_call : K → List (K × CallPtr) → List (K × CallPtr)
  delete_call k [] = []
  delete_call k ((j, p) ∷ m) = ite (dec j k) (delete_call k m) ((j, p) ∷ delete_call k m)

module _ {K V : Type 0} (dec : Discrete K) where
  -- The caller owns the call if it is new.
  unfoldable pub start_call : K → Group K V → Group K V × CallPtr × Bool
  start_call key g = elim (find_call dec key g.m) [
    | some p ↦ (
      record g { calls = write g.calls p (record (g.calls p) { dups = (g.calls p).dups + 1 }) },
      p,
      false,
    )
    | none ↦ (
      record g {
        m = (key, g.fresh) ∷ g.m;
        calls = write g.calls g.fresh new_call;
        fresh = suc g.fresh;
      },
      g.fresh,
      true,
    )
  ]

  unfoldable pub forget : K → Group K V → Group K V
  forget key g = elim (find_call dec key g.m) [
    | none ↦ g
    | some p ↦ record g { m = delete_call dec key g.m; calls = mark_forgotten g.calls p }
  ]

  -- The call leaves the map only if it is still the one of its key.
  unfoldable pub finish : K → CallPtr → Group K V → Group K V
  finish key current g =
      let g1 : Group K V = elim (find_call dec key g.m) [
        | none ↦ g
        | some p ↦ if p == current then record g { m = delete_call dec key g.m } else g
      ] in
      record g1 { calls = write g1.calls current (record (g1.calls current) { done = true }) }

  -- The deferred end of `DoCall`: the outcome is in the call before the call is done.
  unfoldable pub do_call : K → CallPtr → Ran V → Group K V → Group K V
  unfolding finish
  do_call key current ran g =
      finish key current (record g { calls = write g.calls current (settle ran (g.calls current)) })

module _ {K V : Type 0} where
  abbrev pub forget_entries : List (K × CallPtr) → (CallPtr → Call V) → CallPtr → Call V
  forget_entries [] calls = calls
  forget_entries ((j, p) ∷ m) calls = forget_entries m (mark_forgotten calls p)

  unfoldable pub forget_all : Group K V → Group K V
  forget_all g = record g { m = []; calls = forget_entries g.m g.calls }
