-- ===== src/Metrics/Registry.antt =====
-- What holds of the registrations of extra/paceotel/metrics.go.
use pacecache.Prelude.{
  ℕ, true, false, Bool-cases, Option-cases, Option, none, some, List, [], ◌∷◌, ◌⊎◌, inl, inr, ◌≡◌,
  refl, ap, ◌∙◌, ◌↔◌, arith,
}
use Prim.Native.String.{String}
use pacecache.Metrics.{
  Metrics, new_metrics, RegistryError, is_unregistered, unregister, unregister_all, register,
  add_registration, find_registration, report,
}
use pacecache.Metrics.Instruments.{
  MetricInstruments, MetricError, Checked, checked, refused, new_metric_instruments,
}

Checked-cases :
    {A : Type 0} (c : Checked A)
    → ((a : A) × (c ≡ checked a)) ⊎ ((err : MetricError) × (c ≡ refused err))
Checked-cases (checked a) = inl (a, refl)
Checked-cases (refused err) = inr (err, refl)

no_errors : (errs : List (String × ℕ)) → report errs ≡ none → errs ≡ []
no_errors [] e = refl
no_errors (err ∷ errs) e = ground (arith, e)

-- A call of `Register` or `Unregister`, with what the meter answers.
pub data Event : Type 0 where
  registered : (create : String → ℕ ⊎ ℕ) (callback : ℕ ⊎ ℕ) (source : Option String) → Event
  unregistered : (fails : ℕ → Option ℕ) → Event

module _ (dec : Discrete String) where
  abbrev pub NamesDistinct : List (String × ℕ) → Type 0
  NamesDistinct [] = Unit {0}
  NamesDistinct ((name, r) ∷ rs) = (find_registration dec name rs ≡ none) × NamesDistinct rs

  module _ (fails : ℕ → Option ℕ) where
    left-absent :
        (name : String) (rs : List (String × ℕ))
        → find_registration dec name rs ≡ none
        → find_registration dec name (unregister_all fails rs).0 ≡ none
    unfolding unregister_all
    left-absent name [] e = refl
    left-absent name ((other, r) ∷ rs) e = ground (arith, left-absent name rs)

    left-NamesDistinct :
        (rs : List (String × ℕ)) → NamesDistinct rs → NamesDistinct (unregister_all fails rs).0
    unfolding unregister_all
    left-NamesDistinct [] d = tt
    left-NamesDistinct ((name, r) ∷ rs) d = elim (Option-cases (fails r)) [
      | inl e ↦ rw (NamesDistinct, e) (left-NamesDistinct rs d.1)
      | inr (err, e) ↦ rw (NamesDistinct, e) (left-absent name rs d.0, left-NamesDistinct rs d.1)
    ]

    -- A registration is left if it could not be undone.
    abbrev pub still : Option ℕ → Option ℕ
    still none = none
    still (some r) = elim (fails r) [ none ↦ none | some err ↦ some r ]

    left-still :
        (name : String) (rs : List (String × ℕ))
        → NamesDistinct rs
        → find_registration dec name (unregister_all fails rs).0
          ≡ still (find_registration dec name rs)
    unfolding unregister_all
    left-still name [] d = refl
    left-still name ((other, r) ∷ rs) d =
        ground (arith, left-still name rs d.1, left-absent name rs)

    -- There are errors exactly where something is left.
    errors-left :
        (rs : List (String × ℕ))
        → ((unregister_all fails rs).1 ≡ []) ↔ ((unregister_all fails rs).0 ≡ [])
    unfolding unregister_all
    errors-left [] = (λ e. e, λ e. e)
    errors-left ((name, r) ∷ rs) = elim (Option-cases (fails r)) [
      | inl e ↦ rw (unregister_all, e) (errors-left rs)
      | inr (err, e) ↦ rw (unregister_all, e) (λ h. ground (arith, h), λ h. ground (arith, h))
    ]

  -- What holds of registered metrics at any time.
  pub record Sane (m : Metrics) : Type 0 where
    pub distinct : NamesDistinct m.registrations
    pub closed : m.closed ≡ true → m.instruments ≡ none
    pub empty : m.closed ≡ false → m.instruments ≡ none → m.registrations ≡ []

  pub new_metrics-Sane : Sane new_metrics
  new_metrics-Sane = record { distinct = tt; closed = λ e. refl; empty = λ e f. refl }

  add_registration-Sane :
      (callback : ℕ ⊎ ℕ) (name : String) (i : MetricInstruments) (m : Metrics)
      → m.closed ≡ false
      → find_registration dec name m.registrations ≡ none
      → Sane m
      → Sane (add_registration callback name i m).0
  unfolding add_registration
  add_registration-Sane (inr err) name i m running absent sane = record {
    distinct = sane.distinct;
    closed = λ e. ground arith;
    empty = λ e f. ground arith;
  }
  add_registration-Sane (inl r) name i m running absent sane = record {
    distinct = (absent, sane.distinct);
    closed = λ e. ground arith;
    empty = λ e f. ground arith;
  }

  abbrev pub happens : Event → Option Metrics → Option Metrics
  happens (registered create callback source) m = (register dec create callback source m).0
  happens (unregistered fails) m = (unregister fails m).0

  abbrev pub history : List Event → Option Metrics → Option Metrics
  history [] m = m
  history (e ∷ es) m = history es (happens e m)

  register-Sane :
      (create : String → ℕ ⊎ ℕ) (callback : ℕ ⊎ ℕ) (source : Option String) (m : Metrics)
      → Sane m
      → (m' : Metrics) × ((register dec create callback source (some m)).0 ≡ some m') × Sane m'
  unfolding register
  register-Sane create callback none m sane = (m, refl, sane)
  register-Sane create callback (some name) m sane = elim (Bool-cases m.closed) [
    | inl e ↦ (m, ground (arith, e), sane)
    | inr running ↦ elim (Option-cases (find_registration dec name m.registrations)) [
      | inr (r, e) ↦ (m, ground (arith, running, e), sane)
      | inl absent ↦ elim (Option-cases m.instruments) [
        | inr (i, e) ↦ (
          (add_registration callback name i m).0,
          ground (arith, running, absent, e),
          add_registration-Sane callback name i m running absent sane,
        )
        | inl e ↦ elim (Checked-cases (new_metric_instruments create)) [
          | inr (err, f) ↦ (m, ground (arith, running, absent, e, f), sane)
          | inl (i, f) ↦ (
            (add_registration callback name i m).0,
            ground (arith, running, absent, e, f),
            add_registration-Sane callback name i m running absent sane,
          )
        ]
      ]
    ]
  ]

  unregister-Sane :
      (fails : ℕ → Option ℕ) (m : Metrics)
      → Sane m
      → (m' : Metrics) × ((unregister fails (some m)).0 ≡ some m') × Sane m'
  unfolding unregister
  unregister-Sane fails m sane = (
    record {
      instruments = none;
      registrations = (unregister_all fails m.registrations).0;
      closed = true;
    },
    refl,
    record {
      distinct = left-NamesDistinct fails m.registrations sane.distinct;
      closed = λ e. refl;
      empty = λ e f. ground arith;
    },
  )

  -- After any sequence of calls of Register and Unregister, whatever the meter answers, on metrics
  -- for which this holds, as it does for new ones: the names of the registered sources differ,
  -- metrics that are unregistered keep no instruments, and those that are not and have no
  -- instruments have no registrations.
  pub history-Sane :
      (es : List Event) (m : Metrics)
      → Sane m
      → (m' : Metrics) × (history es (some m) ≡ some m') × Sane m'
  history-Sane [] m sane = (m, refl, sane)
  history-Sane (registered create callback source ∷ es) m sane =
      let (m1, e, sane1) = register-Sane create callback source m sane in
      let (m', f, sane') = history-Sane es m1 sane1 in (m', ap (history es) e ∙ f, sane')
  history-Sane (unregistered fails ∷ es) m sane =
      let (m1, e, sane1) = unregister-Sane fails m sane in
      let (m', f, sane') = history-Sane es m1 sane1 in (m', ap (history es) e ∙ f, sane')

  -- On metrics whose registered names differ and whose instruments fit their state, as history-Sane
  -- shows of all, Unregister leaves exactly the registrations that the meter failed to undo, and
  -- returns an error exactly if there is one; afterwards every Register of a source that is not nil
  -- is refused as unregistered and changes nothing, whatever the meter answers.
  pub unregister-left :
      (fails : ℕ → Option ℕ) (m : Metrics)
      → Sane m
      → (m' : Metrics) × (err : Option RegistryError) × (unregister fails (some m) ≡ (some m', err))
        × ((err ≡ none) ↔ (m'.registrations ≡ []))
        × ((name : String)
            → find_registration dec name m'.registrations
              ≡ still fails (find_registration dec name m.registrations))
        × ((create : String → ℕ ⊎ ℕ) (callback : ℕ ⊎ ℕ) (name : String)
            → register dec create callback (some name) (some m') ≡ (some m', some is_unregistered))
  unfolding unregister register
  unregister-left fails m sane =
      let left = (unregister_all fails m.registrations).0 in
      let (one, two) = errors-left fails m.registrations in
      (
        record { instruments = none; registrations = left; closed = true },
        (unregister fails (some m)).1,
        refl,
        (λ e. one (no_errors (unregister_all fails m.registrations).1 e), λ e. ap report (two e)),
        λ name. left-still fails name m.registrations sane.distinct,
        λ create callback name. refl,
      )
