-- ===== src/Loads/Invariant.antt =====
-- Who owns which call of internal/singleflight/group.go among the callers of load.go.
use pacecache.Prelude.{
  ◌≢◌, ℕ_discrete, ℕ, ◌<◌, ◌≡◌, ◌⊎◌, inl, inr, sym, ap, ◌∙◌, Bool, true, false, Option, none, some,
  Option-cases, arith, if◌then◌else◌,
}
use pacecache.Chain.{write}
use pacecache.Loads.{Request, Pc, owning, calling, publishing, ending, waiting}
use pacecache.Singleflight.{CallPtr, Group, Ran, find_call, start_call, forget, do_call, forget_all}
use pacecache.Singleflight.Fields.{
  find_call-forget, fresh-forget, forget-SameOutcome, forgotten-forget_self, forgotten-forget_ne,
  forgotten-forget, find_call-do_call, calls-do_call, fresh-do_call, forget_all-SameOutcome,
  forgotten-forget_all,
}
use pacecache.Types.{LoadResult}

-- The call that a caller has to end.
abbrev pub owned : {V : Type 0} → Pc V → Option CallPtr
owned (owning c) = some c
owned (calling c started_at) = some c
owned (publishing c r ttl) = some c
owned (ending c ran) = some c
owned _ = none

-- The call that a caller waits for.
abbrev pub awaited : {V : Type 0} → Pc V → Option CallPtr
awaited (waiting c) = some c
awaited _ = none

module _ {K V : Type 0} (dec : Discrete K) (requests : ℕ → Request K) where
  pub record Inv (g : Group K (LoadResult V)) (pc : ℕ → Pc V) : Type 0 where
    -- A call in the map has an owner of its key, and is neither forgotten nor done.
    pub in_flight :
        (k : K) (c : CallPtr)
        → find_call dec k g.m ≡ some c
        → (c < g.fresh)
          × ((g.calls c).forgotten ≡ false)
          × ((g.calls c).done ≡ false)
          × ((j : ℕ) × (owned (pc j) ≡ some c) × ((requests j).key ≡ k))
    -- A call with an owner is not done, and is forgotten unless it is that of its key.
    pub owner :
        (j : ℕ) (c : CallPtr)
        → owned (pc j) ≡ some c
        → (c < g.fresh)
          × ((g.calls c).done ≡ false)
          × ((find_call dec (requests j).key g.m ≡ some c) ⊎ ((g.calls c).forgotten ≡ true))
    pub single : (i j : ℕ) (c : CallPtr) → owned (pc i) ≡ some c → owned (pc j) ≡ some c → i ≡ j
    -- A call that is waited for is done, or has an owner of the same key.
    pub waiter :
        (i : ℕ) (c : CallPtr)
        → awaited (pc i) ≡ some c
        → (c < g.fresh)
          × (((g.calls c).done ≡ true)
              ⊎ ((j : ℕ) × (owned (pc j) ≡ some c) × ((requests j).key ≡ (requests i).key)))

  module _ {g : Group K (LoadResult V)} {pc : ℕ → Pc V} (inv : Inv g pc) (i : ℕ) where
    open inv use {in_flight, owner, single, waiter}

    -- The caller keeps the call that it owns, and does not begin to wait.
    pub quiet-Inv :
        (p : Pc V)
        → owned p ≡ owned (pc i)
        → (awaited p ≡ none) ⊎ (awaited p ≡ awaited (pc i))
        → Inv g (write pc i p)
    quiet-Inv p own wait = record {
      in_flight = λ k c e.
          let (lt, f, d, (j, o, key)) = in_flight k c e in
          (lt, f, d, (j, ground (arith, o, own), key));
      owner = λ j c e. owner j c (ground arith);
      single = λ a b c e f. single a b c (ground arith) (ground arith);
      waiter = λ j c e. ground (arith, waiter j c);
    }

    -- A caller without a call starts one, or joins that of its key.
    pub start_call-Inv :
        (g' : Group K (LoadResult V)) (c : CallPtr) (new : Bool)
        → owned (pc i) ≡ none
        → start_call dec (requests i).key g ≡ (g', c, new)
        → Inv g' (write pc i (if new then owning c else waiting c))
    unfolding start_call
    start_call-Inv g' c new idle st = elim (Option-cases (find_call dec (requests i).key g.m)) [
      | inl e ↦ record {
        in_flight = λ k d f. elim (dec (requests i).key k) [
          | yes q ↦ (ground arith, ground arith, ground arith, (i, ground arith, q))
          | no ne ↦
              let (lt, a, b, (j, o, key)) = in_flight k d (ground arith) in
              (ground arith, ground arith, ground arith, (j, ground arith, key))
        ];
        owner = λ j d f. ground (arith, owner j d);
        single = λ a b d f h. ground (arith, single a b d, owner a d, owner b d);
        waiter = λ j d f.
            let (lt, how) = waiter j d (ground arith) in
            (
              ground arith,
              elim how [
                | inl b ↦ inl (ground arith)
                | inr (a, o, key) ↦ inr (a, ground arith, key)
              ],
            );
      }
      | inr (d, e) ↦ record {
        in_flight = λ k d f.
            let (lt, a, b, (j, o, key)) = in_flight k d (ground arith) in
            (ground arith, ground arith, ground arith, (j, ground arith, key));
        owner = λ j d f. ground (arith, owner j d);
        single = λ a b d f h. ground (arith, single a b d);
        waiter = λ j d f. elim (ℕ_discrete j i) [
          | yes q ↦
              let (lt, a, b, (h, o, key)) = in_flight (requests i).key d (ground arith) in
              (ground arith, inr (h, ground arith, key ∙ ap (λ n. (requests n).key) (sym q)))
          | no ne ↦
              let (lt, how) = waiter j d (ground arith) in
              (
                ground arith,
                elim how [
                  | inl b ↦ inl (ground arith)
                  | inr (a, o, key) ↦ inr (a, ground arith, key)
                ],
              )
        ];
      }
    ]

  module _ {g : Group K (LoadResult V)} {pc : ℕ → Pc V} (inv : Inv g pc) where
    open inv use {in_flight, owner, single, waiter}

    -- A call is in the map under one key.
    same_key :
        (k i : K) (c : CallPtr)
        → find_call dec k g.m ≡ some c
        → find_call dec i g.m ≡ some c
        → k ≡ i
    same_key k i c e f =
        let (a, o, p) = (in_flight k c e).3 in
        let (b, q, r) = (in_flight i c f).3 in
        sym p ∙ ap (λ j. (requests j).key) (single a b c o q) ∙ r

    -- A call that has ended is not in the map, by then or still.
    ended_ne :
        (i : ℕ) (c : CallPtr) (ran : Ran (LoadResult V)) (k : K) (d : CallPtr)
        → owned (pc i) ≡ some c
        → find_call dec k (do_call dec (requests i).key c ran g).m ≡ some d
        → (d ≢ c) × (find_call dec k g.m ≡ some d)
    ended_ne i c ran k d e f =
        let was : find_call dec k g.m ≡ some d =
          ground (arith, find_call-do_call dec (requests i).key g c ran k) in
        (
          ground (
            arith,
            find_call-do_call dec (requests i).key g c ran k,
            in_flight k d was,
            owner i c e,
            same_key k (requests i).key c,
          ),
          was,
        )

    pub do_call-Inv :
        (i : ℕ) (c : CallPtr) (ran : Ran (LoadResult V))
        → owned (pc i) ≡ some c
        → Inv (do_call dec (requests i).key c ran g) (write pc i (waiting c))
    do_call-Inv i c ran e = record {
      in_flight = λ k d f.
          let (ne, was) = ended_ne i c ran k d e f in
          let (lt, a, b, (j, o, key)) = in_flight k d was in
          (
            ground (arith, fresh-do_call dec (requests i).key g c ran),
            ground (arith, calls-do_call dec (requests i).key g c ran d),
            ground (arith, calls-do_call dec (requests i).key g c ran d),
            (j, ground arith, key),
          );
      owner = λ j d f. ground (
        arith,
        owner j d,
        single i j c,
        find_call-do_call dec (requests i).key g c ran (requests j).key,
        calls-do_call dec (requests i).key g c ran d,
        fresh-do_call dec (requests i).key g c ran,
      );
      single = λ a b d f h. ground (arith, single a b d);
      waiter = λ j d f. elim (ℕ_discrete d c) [
        | yes same ↦ (
          ground (arith, fresh-do_call dec (requests i).key g c ran, owner i c e),
          inl (ground (arith, calls-do_call dec (requests i).key g c ran d)),
        )
        | no ne ↦
            let (lt, how) = waiter j d (ground arith) in
            (
              ground (arith, fresh-do_call dec (requests i).key g c ran),
              elim how [
                | inl b ↦ inl (ground (arith, calls-do_call dec (requests i).key g c ran d))
                | inr (a, o, key) ↦ inr (a, ground arith, key)
              ],
            )
      ];
    }

    pub forget-Inv : (k : K) → Inv (forget dec k g) pc
    forget-Inv k = record {
      in_flight = λ i c e.
          let (lt, a, b, at) = in_flight i c (ground (arith, find_call-forget dec k g i)) in
          (
            ground (arith, fresh-forget dec k g),
            ground
                (arith, forgotten-forget_ne dec k g c, same_key k i c, find_call-forget dec k g i),
            (forget-SameOutcome dec k g c).done ∙ b,
            at,
          );
      owner = λ j c e.
          let (lt, b, how) = owner j c e in
          (
            ground (arith, fresh-forget dec k g),
            (forget-SameOutcome dec k g c).done ∙ b,
            elim how [
              | inr f ↦ inr (forgotten-forget dec k g c f)
              | inl f ↦ elim (dec k (requests j).key) [
                | yes same ↦ inr (forgotten-forget_self dec k g c (rw same f))
                | no ne ↦ inl (ground (arith, find_call-forget dec k g (requests j).key))
              ]
            ],
          );
      single = single;
      waiter = λ j c e.
          let (lt, how) = waiter j c e in
          (
            ground (arith, fresh-forget dec k g),
            elim how [ inl d ↦ inl ((forget-SameOutcome dec k g c).done ∙ d) | inr o ↦ inr o ],
          );
    }

    pub forget_all-Inv : Inv (forget_all g) pc
    unfolding forget_all
    forget_all-Inv = record {
      in_flight = λ k c e. ground arith;
      owner = λ j c e.
          let (lt, d, where_) = owner j c e in
          (
            lt,
            (forget_all-SameOutcome g c).done ∙ d,
            inr (forgotten-forget_all dec (requests j).key g c where_),
          );
      single = single;
      waiter = λ j c e.
          let (lt, how) = waiter j c e in
          (lt, elim how [ inl d ↦ inl ((forget_all-SameOutcome g c).done ∙ d) | inr o ↦ inr o ]);
    }
