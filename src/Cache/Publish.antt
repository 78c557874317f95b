-- ===== src/Cache/Publish.antt =====
-- A value that a cache of set.go stores is what lookup.go returns for the key.
use pacecache.Prelude.{
  ℕ, ◌<◌, ◌≡◌, ◌%◌, refl, sym, ap, ◌∙◌, inl, inr, false, Option-cases, Option, some, List, [], ◌∷◌,
  zero, suc, ok, length, get_elem?, set, length-set, get_elem?-set, get_elem?-some, arith, ltb,
  if◌then◌else◌, ==-ne,
}
use pacecache.Prelude.Int.{ℤ}
use pacecache.Cache.{Cache, set_value, get}
use pacecache.Cache.Valid.{Valid}
use pacecache.Clock.{deadline_after, effective_ttl}
use pacecache.Expiration.Index.{index_ops}
use pacecache.Expiration.Index.Laws.{index_laws}
use pacecache.Segment.{Entry, is_expired}
use pacecache.Segment.Lookup
use pacecache.Segment.Update
use pacecache.Segment.Model.{Model, find, read, write_entry, set_model, fresh_entry}
use pacecache.Segment.Reads.{value_of, lookup-Refines}
use pacecache.Segment.Store.{set-Refines}
use pacecache.Singleflight.{Group, forget}
use pacecache.Types.{LoadResult}
use pacecache.Storage.{Storage, StorageSegment, segment_index, set_at, lookup_at}
use pacecache.Storage.At.{AllRefine-at, at_segment_lem, length-AllRefine}
use pacecache.Cache.Steps.{AllRoomy-at, forget_at_lem, routed, changed-Valid}

-- The lifetime and the deadline that `Set` gives an entry at the time `now`.
abbrev pub stored_ttl : {K V : Type 0} → (rand : ℕ → ℕ) → Cache K V → (expiration : ℤ) → ℕ
stored_ttl rand c expiration = effective_ttl rand c.ttl c.jitter expiration

abbrev pub stored_deadline :
    {K V : Type 0} → (rand : ℕ → ℕ) → Cache K V → (expiration : ℤ) → (now : ℕ) → ℕ
stored_deadline rand c expiration now =
    let ttl = stored_ttl rand c expiration in if ltb 0 ttl then deadline_after now ttl else 0

inside : {A : Type 0} (i : ℕ) (xs : List A) (x : A) → get_elem? xs i ≡ some x → i < length xs
inside i [] x e = ground arith
inside zero (y ∷ xs) x e = ground arith
inside (suc i) (y ∷ xs) x e = omega (arith, inside i xs x e)

module _ {K V : Type 0} (dec : Discrete K) where
  -- A written entry comes first in the model.
  find-write_entry :
      (e : Entry K V) (m : Model K V) → find dec e.key (write_entry dec e m).items ≡ some e
  find-write_entry e m = elim (Option-cases (find dec e.key m.items)) [
    | inl f ↦ rw (f, write_entry) (ground arith)
    | inr (d, f) ↦ rw (f, write_entry) (ground arith)
  ]

  read-found :
      (e : Entry K V) (m : Model K V) (k : K) (now : ℕ)
      → find dec k m.items ≡ some e
      → is_expired e now ≡ false
      → value_of (read dec k now m).1 ≡ some e.value
  read-found e m k now f live = rw (f, live, read) (ground arith)

  set_model-settings :
      (e : Entry K V) (m : Model K V)
      → ((set_model dec e m).resolution ≡ m.resolution)
        × ((set_model dec e m).max_entries ≡ m.max_entries)
  set_model-settings e m = ground arith

  lookup_at_lem :
      (i : ℕ) (k : K) (now : ℕ) (s : Storage K V) (t t' : StorageSegment K V) (a : Option V)
      → get_elem? s.segments i ≡ some t
      → Lookup.lookup dec index_ops k now t ≡ ok (t', a)
      → lookup_at dec i k now s ≡ ok (record s { segments = set s.segments i t' }, a)
  lookup_at_lem i k now s t t' a et e = at_segment_lem dec i _ s t t' a et e

  -- A get of a key finds the live entry that the model of its segment holds.
  pub get-held :
      (hash : K → ℕ) (c : Cache K V) (ms : List (Model K V)) (k : K) (e : Entry K V) (m : Model K V)
      (later : ℕ)
      → Valid dec c ms
      → get_elem? ms (segment_index hash c.store k) ≡ some m
      → find dec k m.items ≡ some e
      → is_expired e later ≡ false
      → (c' : Cache K V) × (get dec hash k later c ≡ ok (c', some e.value))
  unfolding get
  get-held hash c ms k e m later valid at held live =
      let i = segment_index hash c.store k in
      let (t, n, et, en, r) =
        AllRefine-at dec i c.store.segments ms valid.refines (routed dec c ms valid hash k).1 in
      let (t', e', r') = lookup-Refines dec index_laws r k later in
      let same : n ≡ m = ground (arith, en, at) in
      let hit : value_of (read dec k later n).1 ≡ some e.value =
        rw same (read-found e m k later held live) in
      (
        record c { store = record c.store { segments = set c.store.segments i t' } },
        ground (
          arith,
          lookup_at_lem i k later c.store t t' (value_of (read dec k later n).1) et e',
          hit,
        ),
      )

  -- A written entry is what the model of a segment with room holds.
  pub find-set_model :
      (e : Entry K V) (m : Model K V)
      → 0 < m.max_entries
      → find dec e.key (set_model dec e m).items ≡ some e
  find-set_model e m room =
      rw (==-ne m.max_entries 0 (ground arith), set_model) (find-write_entry e m)

  -- A get of a key finds what was stored last in its segment.
  pub get-stored :
      (hash : K → ℕ) (c : Cache K V) (ms : List (Model K V)) (k : K) (e : Entry K V) (m : Model K V)
      (i : ℕ) (later : ℕ)
      → Valid dec c (set ms i (set_model dec e m))
      → i ≡ hash k % length c.store.segments
      → i < length ms
      → e.key ≡ k
      → 0 < m.max_entries
      → is_expired e later ≡ false
      → (c' : Cache K V) × (get dec hash k later c ≡ ok (c', some e.value))
  get-stored hash c ms k e m i later valid route lt key room live =
      let same : segment_index hash c.store k ≡ i =
        (routed dec c (set ms i (set_model dec e m)) valid hash k).0 ∙ sym route in
      get-held hash c (set ms i (set_model dec e m)) k e (set_model dec e m) later valid
        (rw same (ground (arith, get_elem?-set ms i i (set_model dec e m) lt)))
        (rw⁻¹ key (find-set_model e m room)) live

  module _ (hash : K → ℕ) (c : Cache K V) (ms : List (Model K V)) (v : Valid dec c ms) (k : K) where
    -- The group after a call of `Forget`.
    pub forgot :
        (i : ℕ) (g : Group K (LoadResult V))
        → get_elem? c.states i ≡ some g
        → (g' : Group K (LoadResult V)) → get_elem? c.states i ≡ some g'
        → get_elem? (set c.states i (forget dec k g)) i ≡ some (forget dec k g')
    forgot i g e g' e' =
        ground (arith, get_elem?-set c.states i i (forget dec k g) (inside i c.states g e))

    module _ (rand : ℕ → ℕ) (value : V) (expiration : ℤ) (now : ℕ) where
      pub set_at_lem :
          (i : ℕ) (s : Storage K V) (t t' : StorageSegment K V)
          → get_elem? s.segments i ≡ some t
          → Update.set dec index_ops k value
              (stored_ttl rand c expiration)
              (stored_deadline rand c expiration now)
              t
            ≡ ok t'
          → set_at dec i k value
              (stored_ttl rand c expiration)
              (stored_deadline rand c expiration now)
              s
            ≡ ok (record s { segments = set s.segments i t' }, tt)
      set_at_lem i s t t' et e = at_segment_lem dec i _ s t t' tt et (rw e refl)

      -- A set succeeds. The model of the key's segment has the entry, the others are as before.
      pub set_value-Valid :
          (c' : Cache K V) × (m : Model K V) × (set_value dec hash rand k value expiration now c
            ≡ ok c')
          × (get_elem? ms (segment_index hash c.store k) ≡ some m)
          × (length c'.store.segments ≡ length c.store.segments)
          × ((g : Group K (LoadResult V))
              → get_elem? c.states (segment_index hash c.store k) ≡ some g
              → get_elem? c'.states (segment_index hash c.store k) ≡ some (forget dec k g))
          × Valid dec c' (
              set ms (segment_index hash c.store k) (
                set_model dec
                  (fresh_entry k value
                    (stored_ttl rand c expiration)
                    (stored_deadline rand c expiration now))
                  m))
      unfolding set_value
      set_value-Valid =
          let i = segment_index hash c.store k in
          let (g, group) =
            get_elem?-some i c.states (omega (arith, (routed dec c ms v hash k), v.groups)) in
          let (t, m, et, em, r) =
            AllRefine-at dec i c.store.segments ms v.refines (routed dec c ms v hash k).1 in
          let (t', e, r') =
            set-Refines dec index_laws r k value (stored_ttl rand c expiration)
              (stored_deadline rand c expiration now) in
          (
            record c {
              store = record c.store { segments = set c.store.segments i t' };
              states = set c.states i (forget dec k g);
            },
            m,
            ground (arith, forget_at_lem dec i k c g group, set_at_lem i c.store t t' et e),
            em,
            length-set c.store.segments i t',
            forgot i g group,
            changed-Valid dec c ms v i m
                (set_model dec
                  (fresh_entry k value (stored_ttl rand c expiration)
                    (stored_deadline rand c expiration now))
                  m)
                t' (set c.states i (forget dec k g)) em r'
                (set_model-settings
                  (fresh_entry k value (stored_ttl rand c expiration)
                    (stored_deadline rand c expiration now))
                  m).0
                (set_model-settings
                  (fresh_entry k value (stored_ttl rand c expiration)
                    (stored_deadline rand c expiration now))
                  m).1
                (length-set c.states i (forget dec k g)),
          )

      -- In a valid cache, setting a value succeeds and so does getting it: as long as the entry has
      -- not expired at the time of the get, the value found for the key is the one that was set.
      pub set_value-get :
          (later : ℕ)
          → is_expired
              (fresh_entry k value
                (stored_ttl rand c expiration)
                (stored_deadline rand c expiration now))
              later
            ≡ false
          → (c' c'' : Cache K V) × (set_value dec hash rand k value expiration now c ≡ ok c')
            × (get dec hash k later c' ≡ ok (c'', some value))
      set_value-get later live =
          let (c', m, e, em, size, forgot, valid) = set_value-Valid in
          let i = segment_index hash c.store k in
          let at = routed dec c ms v hash k in
          let (c'', found) =
            get-stored hash c' ms k
              (fresh_entry k value (stored_ttl rand c expiration)
                (stored_deadline rand c expiration now))
              m i later valid (at.0 ∙ ap (λ n. hash k % n) (sym size))
              (omega (arith, at, length-AllRefine dec c.store.segments ms v.refines)) refl
              (AllRoomy-at dec i ms m v.roomy em) live in
          (c', c'', e, found)
