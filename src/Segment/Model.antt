-- ===== src/Segment/Model.antt =====
-- What a segment is meant to be, without addresses, links and index: a list of entries with
-- distinct keys, most recently used first, and what each operation of segment.go does to it.
use pacecache.Prelude.{
  ℕ, Bool, true, false, Option, none, some, List, [], ◌∷◌, ite, leb, ltb, ◌==◌, ◌&&◌, if◌then◌else◌,
  length,
}
use Prim.Native.Nat.{max}
use pacecache.Clock.{deadline_after}
use pacecache.Segment.{Entry, is_expired, count_expiration, count_eviction}
use pacecache.Stats.{SegmentStats}

pub record Model (K V : Type 0) : Type 0 where
  pub items : List (Entry K V)
  pub max_entries : ℕ
  pub sliding : Bool
  pub resolution : ℕ
  pub stats : Option SegmentStats

module _ {K V : Type 0} where
  abbrev pub tally : (SegmentStats → SegmentStats) → Model K V → Model K V
  tally f m = record m { stats = elim m.stats [ none ↦ none | some c ↦ some (f c) ] }

  -- The list without its last entry, the least recently used.
  abbrev pub drop_last : List (Entry K V) → List (Entry K V)
  drop_last [] = []
  drop_last (c ∷ []) = []
  drop_last (c ∷ d ∷ cs) = c ∷ drop_last (d ∷ cs)

  -- A refresh never brings the deadline forward.
  abbrev pub renewed : Entry K V → (now : ℕ) → Entry K V
  renewed c now = record c { deadline = max c.deadline (deadline_after now c.refresh_ttl) }

  abbrev pub fresh_entry : K → V → (refresh_ttl deadline : ℕ) → Entry K V
  fresh_entry key value ttl deadline = record {
    key = key;
    value = value;
    refresh_ttl = if deadline == 0 then 0 else ttl;
    deadline = deadline;
  }

module _ {K V : Type 0} (dec : Discrete K) where
  abbrev pub find : K → List (Entry K V) → Option (Entry K V)
  find k [] = none
  find k (c ∷ cs) = ite (dec c.key k) (some c) (find k cs)

  abbrev pub drop : K → List (Entry K V) → List (Entry K V)
  drop k [] = []
  drop k (c ∷ cs) = ite (dec c.key k) cs (c ∷ drop k cs)

  -- The entry under the key is replaced where it stands.
  abbrev pub replace : K → Entry K V → List (Entry K V) → List (Entry K V)
  replace k d [] = []
  replace k d (c ∷ cs) = ite (dec c.key k) (d ∷ cs) (c ∷ replace k d cs)

  abbrev pub expire : K → Model K V → Model K V
  expire k m = tally count_expiration (record m { items = drop k m.items })

  -- `exists` looks, and reclaims what it sees expired.
  abbrev pub exists_model : K → (now : ℕ) → Model K V → Model K V × Bool
  exists_model k now m = elim (find k m.items) [
    | none ↦ (m, false)
    | some c ↦ if is_expired c now then (expire k m, false) else (m, true)
  ]

  abbrev pub refresh_model : K → (now : ℕ) → Model K V → Model K V × Bool
  refresh_model k now m = elim (find k m.items) [
    | none ↦ (m, false)
    | some c ↦
        if is_expired c now
        then (expire k m, false)
        else if c.refresh_ttl == 0
        then (m, true)
        else (record m { items = replace k (renewed c now) m.items }, true)
  ]

  -- A live read moves the entry to the front, and with sliding expiration renews it.
  abbrev pub read : K → (now : ℕ) → Model K V → Model K V × Option (Entry K V)
  read k now m = elim (find k m.items) [
    | none ↦ (m, none)
    | some c ↦
        if is_expired c now
        then (expire k m, none)
        else let d = if m.sliding && ltb 0 c.refresh_ttl then renewed c now else c in
          (record m { items = d ∷ drop k m.items }, some d)
  ]

  -- A write puts the entry first. Under a new key it evicts the last entry of a full segment.
  abbrev pub write_entry : Entry K V → Model K V → Model K V
  write_entry c m = elim (find c.key m.items) [
    | some _ ↦ record m { items = c ∷ drop c.key m.items }
    | none ↦
        if leb m.max_entries (length m.items)
        then tally count_eviction (record m { items = c ∷ drop_last m.items })
        else record m { items = c ∷ m.items }
  ]

  abbrev pub set_model : Entry K V → Model K V → Model K V
  set_model c m = if m.max_entries == 0 then m else write_entry c m

  -- What `getOrSet` returns: the entry that the key holds now, and whether it was there before.
  abbrev pub get_or_set_model :
      Entry K V → (now : ℕ) → Model K V → Model K V × Option (Entry K V) × Bool
  get_or_set_model c now m =
      if m.max_entries == 0 then (m, none, false) else elim (read c.key now m).1 [
        | some d ↦ ((read c.key now m).0, some d, true)
        | none ↦ (write_entry c (read c.key now m).0, some c, false)
      ]

  abbrev pub take_model : K → (now : ℕ) → Model K V → Model K V × Option (Entry K V)
  take_model k now m = elim (find k m.items) [
    | none ↦ (m, none)
    | some c ↦
        if is_expired c now
        then (expire k m, none)
        else (record m { items = drop k m.items }, some c)
  ]

  abbrev pub delete_model : K → Model K V → Model K V × Bool
  delete_model k m = elim (find k m.items) [
    | none ↦ (m, false)
    | some c ↦ (record m { items = drop k m.items }, true)
  ]
