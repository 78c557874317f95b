-- ===== src/Metrics/Attributes.antt =====
-- extra/paceotel/cache.go: the attributes of the observations. A set of attributes is what
-- `attribute.NewSet` makes of a list of them, in which the last value under a key wins.
use pacecache.Prelude.{
  Option, none, some, List, [], ◌∷◌, ◌++◌, ◌≡◌, ◌≢◌, refl, sym, ◌∙◌, ite, arith,
}
use Prim.Native.String.{String}

abbrev pub cache_name_attribute : String
cache_name_attribute = "pacecache.name"

abbrev pub lookup_result_attribute : String
lookup_result_attribute = "pacecache.lookup.result"

abbrev pub load_result_attribute : String
load_result_attribute = "pacecache.load.result"

abbrev pub removal_operation_attribute : String
removal_operation_attribute = "pacecache.removal.operation"

abbrev pub lookup_result_hit : String
lookup_result_hit = "hit"

abbrev pub lookup_result_miss : String
lookup_result_miss = "miss"

abbrev pub load_result_found : String
load_result_found = "found"

abbrev pub load_result_not_found : String
load_result_not_found = "not_found"

abbrev pub load_result_error : String
load_result_error = "error"

abbrev pub removal_operation_delete : String
removal_operation_delete = "delete"

abbrev pub removal_operation_clear : String
removal_operation_clear = "clear"

-- `S` is the type of the sets of attributes.
pub record MetricAttributes (S : Type 0) : Type 0 where
  pub base : S
  pub hit : S
  pub miss : S
  pub load_found : S
  pub load_not_found : S
  pub load_error : S
  pub delete_operation : S
  pub clear_operation : S

-- `text` makes a value of an attribute from a text.
module _ {X S : Type 0} (text : String → X) (new_set : List (String × X) → S) where
  abbrev pub base_attributes : String → List (String × X) → List (String × X)
  base_attributes String.[] attributes = attributes
  base_attributes (String.◌∷◌ c cs) attributes =
      attributes ++ (cache_name_attribute, text (String.◌∷◌ c cs)) ∷ []

  unfoldable pub new_metric_attributes : String → List (String × X) → MetricAttributes S
  new_metric_attributes name attributes =
      let base = base_attributes name attributes in
      let option = λ (extra : List (String × X)). new_set (base ++ extra) in
      record {
        base = option [];
        hit = option ((lookup_result_attribute, text lookup_result_hit) ∷ []);
        miss = option ((lookup_result_attribute, text lookup_result_miss) ∷ []);
        load_found = option ((load_result_attribute, text load_result_found) ∷ []);
        load_not_found = option ((load_result_attribute, text load_result_not_found) ∷ []);
        load_error = option ((load_result_attribute, text load_result_error) ∷ []);
        delete_operation =
            option ((removal_operation_attribute, text removal_operation_delete) ∷ []);
        clear_operation = option ((removal_operation_attribute, text removal_operation_clear) ∷ []);
      }

module _ {X : Type 0} (dec : Discrete String) where
  -- The last value under a key.
  abbrev pub last_value : String → List (String × X) → Option X
  last_value key [] = none
  last_value key ((other, x) ∷ xs) = elim (last_value key xs) [
    | some y ↦ some y
    | none ↦ ite (dec other key) (some x) none
  ]

  last_value-append :
      (key : String) (x : X) (xs : List (String × X))
      → last_value key (xs ++ (key, x) ∷ []) ≡ some x
  last_value-append key x [] = ground arith
  last_value-append key x ((other, y) ∷ xs) = rw (last_value-append key x xs) refl

  last_value-other :
      (key other : String) (x : X) (xs : List (String × X))
      → other ≢ key
      → last_value key (xs ++ (other, x) ∷ []) ≡ last_value key xs
  last_value-other key other x [] ne = ground arith
  last_value-other key other x ((k, y) ∷ xs) ne = rw (last_value-other key other x xs ne) refl

  last_value-append_nil :
      (key : String) (xs : List (String × X)) → last_value key (xs ++ []) ≡ last_value key xs
  last_value-append_nil key [] = refl
  last_value-append_nil key ((k, y) ∷ xs) = rw (last_value-append_nil key xs) refl

module _ {X S : Type 0} (text : String → X) (new_set : List (String × X) → S)
    (dec : Discrete String) (value : S → String → Option X)
    (last : (xs : List (String × X)) (key : String)
      → value (new_set xs) key ≡ last_value dec key xs) where
  -- A set that adds a value under a key to another.
  abbrev pub Labelled : (base extended : S) → (key label : String) → Type 0
  Labelled base extended key label =
      (value extended key ≡ some (text label))
      × ((other : String) → key ≢ other → value extended other ≡ value base other)

  -- What the name of a source overrides.
  abbrev pub named : String → Option X → Option X
  named String.[] x = x
  named (String.◌∷◌ c cs) x = some (text (String.◌∷◌ c cs))

  extended-Labelled :
      (base : List (String × X)) (key label : String)
      → Labelled (new_set (base ++ [])) (new_set (base ++ (key, text label) ∷ [])) key label
  extended-Labelled base key label = (
    last (base ++ (key, text label) ∷ []) key ∙ last_value-append dec key (text label) base,
    λ other ne.
        last (base ++ (key, text label) ∷ []) other
        ∙ last_value-other dec other key (text label) base ne
        ∙ sym (last (base ++ []) other ∙ last_value-append_nil dec other base),
  )

  name-last :
      (name : String) (attributes : List (String × X))
      → last_value dec cache_name_attribute (base_attributes text new_set name attributes)
        ≡ named name (last_value dec cache_name_attribute attributes)
  name-last String.[] attributes = refl
  name-last (String.◌∷◌ c cs) attributes =
      last_value-append dec cache_name_attribute (text (String.◌∷◌ c cs)) attributes

  -- If a set of attributes holds the last value under each key, then the base attributes of a
  -- source hold its name under the name's key if it is not empty, whatever attributes the user
  -- gives; each of the other seven sets holds its own result or operation under its key, and what
  -- the base holds under every other key.
  pub new_metric_attributes-Labelled :
      (name : String) (attributes : List (String × X))
      → let m = new_metric_attributes text new_set name attributes in
        (value m.base cache_name_attribute
          ≡ named name (last_value dec cache_name_attribute attributes))
        × Labelled m.base m.hit lookup_result_attribute lookup_result_hit
        × Labelled m.base m.miss lookup_result_attribute lookup_result_miss
        × Labelled m.base m.load_found load_result_attribute load_result_found
        × Labelled m.base m.load_not_found load_result_attribute load_result_not_found
        × Labelled m.base m.load_error load_result_attribute load_result_error
        × Labelled m.base m.delete_operation removal_operation_attribute removal_operation_delete
        × Labelled m.base m.clear_operation removal_operation_attribute removal_operation_clear
  unfolding new_metric_attributes
  new_metric_attributes-Labelled name attributes =
      let base = base_attributes text new_set name attributes in
      (
        last (base ++ []) cache_name_attribute
            ∙ last_value-append_nil dec cache_name_attribute base
            ∙ name-last name attributes,
        extended-Labelled base lookup_result_attribute lookup_result_hit,
        extended-Labelled base lookup_result_attribute lookup_result_miss,
        extended-Labelled base load_result_attribute load_result_found,
        extended-Labelled base load_result_attribute load_result_not_found,
        extended-Labelled base load_result_attribute load_result_error,
        extended-Labelled base removal_operation_attribute removal_operation_delete,
        extended-Labelled base removal_operation_attribute removal_operation_clear,
      )
