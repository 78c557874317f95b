-- ===== src/Segment/Nodes.antt =====
-- The entries of a segment with their addresses, in the order of the LRU list.
pub mod Find
pub mod Replace
use pacecache.Prelude.{
  ℕ, suc, ◌<◌, ◌≡◌, ◌≢◌, ◌⊎◌, refl, ap, Option, none, some, List, [], ◌∷◌, ite, if_neg, arith, ◌==◌,
  if◌then◌else◌, ◌∈◌, ◌∉◌, Distinct, erase, length, Bool-cases, inl, inr,
}
use pacecache.Chain.{Ptr, write, last_or}
use pacecache.Segment.{Entry}
use pacecache.Segment.Model.{find, drop, replace, drop_last}

abbrev pub Nodes : Type 0 → Type 0 → Type 0
Nodes K V = List (Ptr × Entry K V)

-- Every address has been handed out by the allocator.
abbrev pub Allocated : Ptr → List Ptr → Type 0
Allocated n [] = Unit {0}
Allocated n (p ∷ ps) = (p < n) × Allocated n ps

pub erase-Allocated :
    (n : Ptr) (p : Ptr) (ps : List Ptr) → Allocated n ps → Allocated n (erase p ps)
erase-Allocated n p [] h = tt
erase-Allocated n p (q ∷ ps) h = ground (arith, erase-Allocated n p ps h.1)

pub suc-Allocated : (n : Ptr) (ps : List Ptr) → Allocated n ps → Allocated (suc n) ps
suc-Allocated n [] h = tt
suc-Allocated n (q ∷ ps) h = ground (arith, suc-Allocated n ps h.1)

pub fresh-absent : (n : Ptr) (ps : List Ptr) → Allocated n ps → n ∉ ps
fresh-absent n [] h = refl
fresh-absent n (q ∷ ps) h = ground (arith, fresh-absent n ps h.1)

pub mem-lt : (n : Ptr) (p : Ptr) (ps : List Ptr) → Allocated n ps → p ∈ ps → p < n
mem-lt n p [] h m = ground arith
mem-lt n p (q ∷ ps) h m = ground (arith, mem-lt n p ps h.1)

module _ {K V : Type 0} where
  abbrev pub addresses : Nodes K V → List Ptr
  addresses [] = []
  addresses ((p, c) ∷ ps) = p ∷ addresses ps

  abbrev pub items : Nodes K V → List (Entry K V)
  items [] = []
  items ((p, c) ∷ ps) = c ∷ items ps

  -- The deadline of the entry at an address, 0 where no entry is.
  abbrev pub deadline_at : Nodes K V → Ptr → ℕ
  deadline_at [] q = 0
  deadline_at ((p, c) ∷ ps) q = if q == p then c.deadline else deadline_at ps q

  -- The memory holds every entry at its address.
  abbrev pub Stored : (Ptr → Option (Entry K V)) → Nodes K V → Type 0
  Stored cells [] = Unit {0}
  Stored cells ((p, c) ∷ ps) = (cells p ≡ some c) × Stored cells ps

  pub length-addresses : (ps : Nodes K V) → length (addresses ps) ≡ length (items ps)
  length-addresses [] = refl
  length-addresses ((p, c) ∷ ps) = ap suc (length-addresses ps)

  pub deadline_at-absent : (ps : Nodes K V) (q : Ptr) → q ∉ addresses ps → deadline_at ps q ≡ 0
  deadline_at-absent [] q h = refl
  deadline_at-absent ((p, c) ∷ ps) q h = ground (arith, deadline_at-absent ps q)

  pub Stored-write :
      (cells : Ptr → Option (Entry K V)) (p : Ptr) (v : Option (Entry K V)) (ps : Nodes K V)
      → Stored cells ps
      → p ∉ addresses ps
      → Stored (write cells p v) ps
  Stored-write cells p v [] s h = tt
  Stored-write cells p v ((q, c) ∷ ps) s h = ground (arith, Stored-write cells p v ps s.1)

module _ {K V : Type 0} (dec : Discrete K) where
  abbrev pub find_node : K → Nodes K V → Option (Ptr × Entry K V)
  find_node k [] = none
  find_node k ((p, c) ∷ ps) = ite (dec c.key k) (some (p, c)) (find_node k ps)

  abbrev pub drop_node : K → Nodes K V → Nodes K V
  drop_node k [] = []
  drop_node k ((p, c) ∷ ps) = ite (dec c.key k) ps ((p, c) ∷ drop_node k ps)

  abbrev pub replace_node : K → Entry K V → Nodes K V → Nodes K V
  replace_node k d [] = []
  replace_node k d ((p, c) ∷ ps) = ite (dec c.key k) ((p, d) ∷ ps) ((p, c) ∷ replace_node k d ps)

  abbrev pub address_of : K → Nodes K V → Option Ptr
  address_of k [] = none
  address_of k ((p, c) ∷ ps) = ite (dec c.key k) (some p) (address_of k ps)

  -- No two entries have one key.
  abbrev pub KeysDistinct : Nodes K V → Type 0
  KeysDistinct [] = Unit {0}
  KeysDistinct ((p, c) ∷ ps) = (address_of c.key ps ≡ none) × KeysDistinct ps

  module _ (k : K) where
    pub address_of-find_node :
        (ps : Nodes K V) {p : Ptr}
        → address_of k ps ≡ some p
        → (c : Entry K V) × (find_node k ps ≡ some (p, c)) × (c.key ≡ k)
    address_of-find_node [] h = ground arith
    address_of-find_node ((q, c) ∷ ps) {p} h = elim (dec c.key k) [
      | yes e ↦ (c, ground arith, e)
      | no ne ↦
          let (d, f, g) = address_of-find_node ps {p = p} (ground arith) in (d, ground arith, g)
    ]

    pub items-drop_node : (ps : Nodes K V) → items (drop_node k ps) ≡ drop dec k (items ps)
    items-drop_node [] = refl
    items-drop_node ((q, c) ∷ ps) = ground (arith, items-drop_node ps)

    pub items-replace_node :
        (d : Entry K V) (ps : Nodes K V) → items (replace_node k d ps) ≡ replace dec k d (items ps)
    items-replace_node d [] = refl
    items-replace_node d ((q, c) ∷ ps) = ground (arith, items-replace_node d ps)

    pub address_of-drop_node :
        (j : K) (ps : Nodes K V)
        → KeysDistinct ps
        → address_of j (drop_node k ps) ≡ ite (dec k j) none (address_of j ps)
    address_of-drop_node j [] d = ground arith
    address_of-drop_node j ((q, c) ∷ ps) d = ground (arith, address_of-drop_node j ps d.1)

    pub drop_node-KeysDistinct : (ps : Nodes K V) → KeysDistinct ps → KeysDistinct (drop_node k ps)
    drop_node-KeysDistinct [] d = tt
    drop_node-KeysDistinct ((q, c) ∷ ps) d =
        ground (arith, drop_node-KeysDistinct ps d.1, address_of-drop_node c.key ps d.1)

    module _ (p : Ptr) (c : Entry K V) where
      pub find_node-mem : (ps : Nodes K V) → find_node k ps ≡ some (p, c) → p ∈ addresses ps
      find_node-mem [] h = ground arith
      find_node-mem ((q, d) ∷ ps) h = ground (arith, find_node-mem ps)

      pub address_of-found :
          (ps : Nodes K V) → find_node k ps ≡ some (p, c) → address_of k ps ≡ some p
      address_of-found [] h = ground arith
      address_of-found ((q, d) ∷ ps) h = ground (arith, address_of-found ps)

      pub find_node-key : (ps : Nodes K V) → find_node k ps ≡ some (p, c) → c.key ≡ k
      find_node-key [] h = ground arith
      find_node-key ((q, d) ∷ ps) h = ground (arith, find_node-key ps)

      pub addresses-drop_node :
          (ps : Nodes K V)
          → find_node k ps ≡ some (p, c)
          → Distinct (addresses ps)
          → addresses (drop_node k ps) ≡ erase p (addresses ps)
      addresses-drop_node [] h d = refl
      addresses-drop_node ((q, e) ∷ ps) h d =
          ground (arith, addresses-drop_node ps, find_node-mem ps)

      pub find_node-Stored :
          (cells : Ptr → Option (Entry K V)) (ps : Nodes K V)
          → find_node k ps ≡ some (p, c)
          → Stored cells ps
          → cells p ≡ some c
      find_node-Stored cells [] h s = ground arith
      find_node-Stored cells ((q, e) ∷ ps) h s = ground (arith, find_node-Stored cells ps)

      pub deadline_at-found :
          (ps : Nodes K V)
          → find_node k ps ≡ some (p, c)
          → Distinct (addresses ps)
          → deadline_at ps p ≡ c.deadline
      deadline_at-found [] h d = ground arith
      deadline_at-found ((q, e) ∷ ps) h d = ground (arith, deadline_at-found ps, find_node-mem ps)

      pub deadline_at-drop_node :
          (q : Ptr) (ps : Nodes K V)
          → find_node k ps ≡ some (p, c)
          → Distinct (addresses ps)
          → deadline_at (drop_node k ps) q ≡ write (deadline_at ps) p 0 q
      deadline_at-drop_node q [] h d = ground arith
      deadline_at-drop_node q ((r, e) ∷ ps) h d =
          ground (arith, deadline_at-drop_node q ps, find_node-mem ps, deadline_at-absent ps q)

    pub drop_node-Stored :
        (cells : Ptr → Option (Entry K V)) (ps : Nodes K V)
        → Stored cells ps
        → Stored cells (drop_node k ps)
    drop_node-Stored cells [] s = tt
    drop_node-Stored cells ((q, e) ∷ ps) s = ground (arith, drop_node-Stored cells ps s.1)
