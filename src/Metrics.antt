-- ===== src/Metrics.antt =====
-- extra/paceotel: the registration of caches as sources of metrics, in metrics.go and options.go. The
-- meter of OpenTelemetry is what it answers: `create` gives an instrument or an error for a name,
-- `callback` a registration or an error, and `fails` the error of a registration that is undone.
-- Instruments, registrations and errors of the meter stand as numbers.
pub mod Instruments
pub mod Attributes
pub mod Observe
pub mod Registry
use pacecache.Prelude.{
  ℕ, Bool, true, false, Option, none, some, List, [], ◌∷◌, ◌⊎◌, inl, inr, ite, if◌then◌else◌,
}
use Prim.Native.String.{String}
use pacecache.Metrics.Instruments.{
  MetricInstruments, MetricError, create_metric, Checked, checked, refused, new_metric_instruments,
}

-- The errors of `Register` and `Unregister`.
pub data RegistryError : Type 0 where
  metrics_is_nil : RegistryError
  source_is_nil : RegistryError
  is_unregistered : RegistryError
  already_registered : (name : String) → RegistryError
  not_created : MetricError → RegistryError
  not_registered : (err : ℕ) → RegistryError
  not_unregistered : (errs : List (String × ℕ)) → RegistryError

-- The map of registrations as a list of its entries, in the order in which a loop meets them; the
-- invariant of Metrics/Registry is that their names differ.
pub record Metrics : Type 0 where
  pub instruments : Option MetricInstruments
  pub registrations : List (String × ℕ)
  pub closed : Bool

abbrev pub new_metrics : Metrics
new_metrics = record { instruments = none; registrations = []; closed = false }

-- The loop of `Unregister`: what is left, and the errors.
unfoldable pub unregister_all :
    (fails : ℕ → Option ℕ) → List (String × ℕ) → List (String × ℕ) × List (String × ℕ)
unregister_all fails [] = ([], [])
unregister_all fails ((name, r) ∷ rs) =
    let (left, errs) = unregister_all fails rs in
    elim (fails r) [ none ↦ (left, errs) | some err ↦ ((name, r) ∷ left, (name, err) ∷ errs) ]

-- The errors of `Unregister` as one.
abbrev pub report : List (String × ℕ) → Option RegistryError
report [] = none
report (e ∷ es) = some (not_unregistered (e ∷ es))

unfoldable pub unregister :
    (fails : ℕ → Option ℕ) → Option Metrics → Option Metrics × Option RegistryError
unfolding unregister_all
unregister fails none = (none, none)
unregister fails (some m) =
    let (left, errs) = unregister_all fails m.registrations in
    (some (record { instruments = none; registrations = left; closed = true }), report errs)

-- `registerCallback`, and the entry of its registration. `metrics.registrations[name] = registration`
-- adds an entry, since `register` has found none under the name.
unfoldable pub add_registration :
    (callback : ℕ ⊎ ℕ) → String → MetricInstruments → Metrics → Metrics × Option RegistryError
add_registration callback name i m = elim callback [
  | inr err ↦ (record m { instruments = some i }, some (not_registered err))
  | inl r ↦ (record m { instruments = some i; registrations = (name, r) ∷ m.registrations }, none)
]

module _ (dec : Discrete String) where
  abbrev pub find_registration : String → List (String × ℕ) → Option ℕ
  find_registration name [] = none
  find_registration name ((other, r) ∷ rs) =
      ite (dec other name) (some r) (find_registration name rs)

  -- `source` is the name of a source that is not nil.
  unfoldable pub register :
      (create : String → ℕ ⊎ ℕ)
      → (callback : ℕ ⊎ ℕ) → (source : Option String) → Option Metrics
      → Option Metrics × Option RegistryError
  unfolding add_registration
  register create callback source none = (none, some metrics_is_nil)
  register create callback none (some m) = (some m, some source_is_nil)
  register create callback (some name) (some m) =
      if m.closed
      then (some m, some is_unregistered)
      else elim (find_registration name m.registrations) [
        | some r ↦ (some m, some (already_registered name))
        | none ↦ elim m.instruments [
          | some i ↦ let (m', err) = add_registration callback name i m in (some m', err)
          | none ↦ elim (new_metric_instruments create) [
            | refused err ↦ (some m, some (not_created err))
            | checked i ↦ let (m', err) = add_registration callback name i m in (some m', err)
          ]
        ]
      ]
