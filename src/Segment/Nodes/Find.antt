-- ===== src/Segment/Nodes/Find.antt =====
-- Which entry of a list of entries with addresses a key, an address or the last place finds.
use pacecache.Prelude.{
  ◌≡◌, ◌≢◌, refl, ap, none, some, [], ◌∷◌, if_neg, arith, ◌==◌, Bool-cases, inl, inr,
}
use pacecache.Chain.{Ptr, last_or}
use pacecache.Segment.{Entry}
use pacecache.Segment.Model.{find, drop_last}
use pacecache.Segment.Nodes.{
  KeysDistinct, Nodes, address_of, address_of-found, addresses, deadline_at, drop_node, find_node,
  items,
}

pub find_node-none :
    {K V : Type 0} (dec : Discrete K) (k : K) (ps : Nodes K V)
    → address_of dec k ps ≡ none
    → find dec k (items ps) ≡ none
find_node-none dec k [] f = refl
find_node-none dec k ((q, e) ∷ ps) f = ground (arith, find_node-none dec k ps)

pub find-items_some :
    {K V : Type 0} (dec : Discrete K) (k : K) (p : Ptr) (c : Entry K V) (ps : Nodes K V)
    → find_node dec k ps ≡ some (p, c)
    → find dec k (items ps) ≡ some c
find-items_some dec k p c [] f = ground arith
find-items_some dec k p c ((q, e) ∷ ps) f = ground (arith, find-items_some dec k p c ps)

earlier_key :
    {K V : Type 0} (dec : Discrete K) (k : K) (p : Ptr) (c : Entry K V) (ps : Nodes K V)
    → address_of dec k ps ≡ none
    → find_node dec c.key ps ≡ some (p, c)
    → k ≢ c.key
earlier_key dec k p c ps a f =
    λ e. cc (ap (λ j. address_of dec j ps) e, address_of-found dec c.key p c ps f)

-- The last entry of a list that is not empty: its key, its address, and what is left without it.
pub last_node :
    {K V : Type 0} (dec : Discrete K) (a : Ptr) (ps : Nodes K V)
    → KeysDistinct dec ps
    → ps ≢ []
    → (p : Ptr) × (c : Entry K V) × (find_node dec c.key ps ≡ some (p, c))
      × (last_or a (addresses ps) ≡ p)
      × (items (drop_node dec c.key ps) ≡ drop_last (items ps))
last_node dec a [] u h = absurd (h refl)
last_node dec a ((p, c) ∷ []) u h = (p, c, ground arith, refl, ground arith)
last_node {K} {V} dec a ((p, c) ∷ (q, d) ∷ ps) u h =
    let (r, e, f, g, i) = last_node dec p ((q, d) ∷ ps) u.1 (λ x. cc) in
    let other = earlier_key dec c.key r e ((q, d) ∷ ps) u.0 f in
    (
      r,
      e,
      rw (if_neg (dec c.key e.key) other) f,
      g,
      rw (if_neg (dec c.key e.key) other) (ap (λ cs. c ∷ cs) i),
    )

-- A deadline other than 0 is that of an entry at the address.
pub deadline_at-node :
    {K V : Type 0} (dec : Discrete K) (ps : Nodes K V) (p : Ptr)
    → KeysDistinct dec ps
    → deadline_at ps p ≢ 0
    → (c : Entry K V) × (find_node dec c.key ps ≡ some (p, c)) × (deadline_at ps p ≡ c.deadline)
deadline_at-node dec [] p u h = absurd (h refl)
deadline_at-node dec ((q, d) ∷ ps) p u h = elim (Bool-cases (p == q)) [
  | inl e ↦ (d, ground arith, ground arith)
  | inr e ↦
      let (c, f, g) = deadline_at-node dec ps p u.1 (ground arith) in
      (c, rw (if_neg (dec d.key c.key) (earlier_key dec d.key p c ps u.0 f)) f, ground arith)
]
