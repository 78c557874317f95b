-- ===== src/Singleflight/Barrier.antt =====
-- The calls that a mutation of the cache forgets can tell so: `Forget` and `ForgetAll` of
-- internal/singleflight/group.go mark the calls in flight and take them out of the map.
use pacecache.Prelude.{◌≡◌, ◌≢◌, refl, true, none, some, List, [], ◌∷◌, arith}
use pacecache.Singleflight.{
  CallPtr, Call, Group, find_call, delete_call, mark_forgotten, start_call, forget, finish,
  forget_entries, forget_all,
}

module _ {K : Type 0} (dec : Discrete K) where
  pub find_call-delete_call :
      (k : K) (m : List (K × CallPtr)) → find_call dec k (delete_call dec k m) ≡ none
  find_call-delete_call k [] = refl
  find_call-delete_call k ((j, p) ∷ m) = ground (arith, find_call-delete_call k m)

  pub find_call-delete_call_ne :
      (k i : K) (m : List (K × CallPtr))
      → k ≢ i
      → find_call dec i (delete_call dec k m) ≡ find_call dec i m
  find_call-delete_call_ne k i [] ne = refl
  find_call-delete_call_ne k i ((j, p) ∷ m) ne = ground (arith, find_call-delete_call_ne k i m)

module _ {K V : Type 0} (dec : Discrete K) where
  -- After a call of Forget, the key has no call in flight, so that the next caller owns a new one;
  -- a call that was in flight for the key is marked as forgotten; and the calls of the other keys
  -- stay in flight.
  forget-barrier :
      (k : K) (g : Group K V)
      → (find_call dec k (forget dec k g).m ≡ none)
        × ((start_call dec k (forget dec k g)).2 ≡ true)
        × ((p : CallPtr)
            → find_call dec k g.m ≡ some p
            → ((forget dec k g).calls p).forgotten ≡ true)
        × ((i : K) → k ≢ i → find_call dec i (forget dec k g).m ≡ find_call dec i g.m)
  unfolding forget start_call
  forget-barrier k g = (
    gone,
    ground (arith, gone),
    λ p e. ground arith,
    λ i ne. ground (arith, find_call-delete_call_ne dec k i g.m),
  )
    where
      gone : find_call dec k (forget dec k g).m ≡ none
      gone = ground (arith, find_call-delete_call dec k g.m)

  pub marks_stay :
      (m : List (K × CallPtr)) (calls : CallPtr → Call V) (p : CallPtr)
      → (calls p).forgotten ≡ true
      → (forget_entries m calls p).forgotten ≡ true
  marks_stay [] calls p e = e
  marks_stay ((j, q) ∷ m) calls p e = marks_stay m (mark_forgotten calls q) p (ground arith)

  pub marked :
      (k : K) (m : List (K × CallPtr)) (calls : CallPtr → Call V) (p : CallPtr)
      → find_call dec k m ≡ some p
      → (forget_entries m calls p).forgotten ≡ true
  marked k [] calls p e = ground arith
  marked k ((j, q) ∷ m) calls p e =
      ground (arith, marks_stay m (mark_forgotten calls q) p, marked k m (mark_forgotten calls q) p)

  -- After a call of ForgetAll, no key has a call in flight, and every call that a key had is marked
  -- as forgotten.
  forget_all-barrier :
      (g : Group K V) (k : K)
      → (find_call dec k (forget_all g).m ≡ none)
        × ((p : CallPtr) → find_call dec k g.m ≡ some p → ((forget_all g).calls p).forgotten ≡ true)
  unfolding forget_all
  forget_all-barrier g k = (refl, λ p e. marked k g.m g.calls p e)

  -- A call that ends after another call has taken its place under the key leaves that other call in
  -- flight.
  finish-successor :
      (k : K) (old current : CallPtr) (g : Group K V)
      → find_call dec k g.m ≡ some current
      → old ≢ current
      → find_call dec k (finish dec k old g).m ≡ some current
  unfolding finish
  finish-successor k old current g e ne = ground arith
