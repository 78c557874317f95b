-- ===== src/Segment/Nodes/Replace.antt =====
-- Replacing the entry under a key where it stands in a list of entries with addresses.
use pacecache.Prelude.{◌≡◌, ◌⊎◌, refl, Option, none, some, [], ◌∷◌, ite, arith, Distinct}
use pacecache.Chain.{Ptr, write}
use pacecache.Segment.{Entry}
use pacecache.Segment.Nodes.{
  KeysDistinct, Nodes, Stored, Stored-write, address_of, addresses, deadline_at, drop_node,
  find_node, find_node-mem, replace_node,
}

-- Replacing an entry where it stands, under its own key or under a new one.
module _ {K V : Type 0} (dec : Discrete K) (k : K) (d : Entry K V) where
  pub addresses-replace_node : (ps : Nodes K V) → addresses (replace_node dec k d ps) ≡ addresses ps
  addresses-replace_node [] = refl
  addresses-replace_node ((q, e) ∷ ps) = ground (arith, addresses-replace_node ps)

  module _ (p : Ptr) (c : Entry K V) where
    pub replace_node-Stored :
        (cells : Ptr → Option (Entry K V)) (ps : Nodes K V)
        → find_node dec k ps ≡ some (p, c)
        → Distinct (addresses ps)
        → Stored cells ps
        → Stored (write cells p (some d)) (replace_node dec k d ps)
    replace_node-Stored cells [] f h s = tt
    replace_node-Stored cells ((q, e) ∷ ps) f h s = ground (
      arith,
      replace_node-Stored cells ps,
      find_node-mem dec k p c ps,
      Stored-write cells p (some d) ps s.1,
    )

    pub deadline_at-replace_node :
        (q : Ptr) (ps : Nodes K V)
        → find_node dec k ps ≡ some (p, c)
        → Distinct (addresses ps)
        → deadline_at (replace_node dec k d ps) q ≡ write (deadline_at ps) p d.deadline q
    deadline_at-replace_node q [] f h = ground arith
    deadline_at-replace_node q ((r, e) ∷ ps) f h =
        ground (arith, deadline_at-replace_node q ps, find_node-mem dec k p c ps)

    -- Under the same key.
    pub address_of-replace_node :
        (j : K) (ps : Nodes K V)
        → find_node dec k ps ≡ some (p, c)
        → d.key ≡ k
        → address_of dec j (replace_node dec k d ps) ≡ address_of dec j ps
    address_of-replace_node j [] f g = refl
    address_of-replace_node j ((q, e) ∷ ps) f g = ground (arith, address_of-replace_node j ps)

    -- Under a new key.
    pub address_of-rekey :
        (j : K) (ps : Nodes K V)
        → find_node dec k ps ≡ some (p, c)
        → address_of dec d.key ps ≡ none
        → KeysDistinct dec ps
        → address_of dec j (replace_node dec k d ps)
          ≡ ite (dec d.key j) (some p) (ite (dec k j) none (address_of dec j ps))
    address_of-rekey j [] f g u = ground arith
    address_of-rekey j ((q, e) ∷ ps) f g u = ground (arith, address_of-rekey j ps)

    pub find_node-replace_node :
        (ps : Nodes K V)
        → find_node dec k ps ≡ some (p, c)
        → (d.key ≡ k) ⊎ (address_of dec d.key ps ≡ none)
        → find_node dec d.key (replace_node dec k d ps) ≡ some (p, d)
    find_node-replace_node [] f g = ground arith
    find_node-replace_node ((q, e) ∷ ps) f g = ground (arith, find_node-replace_node ps)

    pub drop_node-replace_node :
        (ps : Nodes K V)
        → find_node dec k ps ≡ some (p, c)
        → (d.key ≡ k) ⊎ (address_of dec d.key ps ≡ none)
        → drop_node dec d.key (replace_node dec k d ps) ≡ drop_node dec k ps
    drop_node-replace_node [] f g = ground arith
    drop_node-replace_node ((q, e) ∷ ps) f g = ground (arith, drop_node-replace_node ps)

    pub replace_node-KeysDistinct :
        (ps : Nodes K V)
        → find_node dec k ps ≡ some (p, c)
        → (d.key ≡ k) ⊎ (address_of dec d.key ps ≡ none)
        → KeysDistinct dec ps
        → KeysDistinct dec (replace_node dec k d ps)
    replace_node-KeysDistinct [] f g u = tt
    replace_node-KeysDistinct ((q, e) ∷ ps) f g u = ground (
      arith,
      replace_node-KeysDistinct ps,
      address_of-replace_node e.key ps,
      address_of-rekey e.key ps,
    )

pub replace_node_self :
    {K V : Type 0} (dec : Discrete K) (k : K) (p : Ptr) (c : Entry K V) (ps : Nodes K V)
    → find_node dec k ps ≡ some (p, c)
    → replace_node dec k c ps ≡ ps
replace_node_self dec k p c [] f = refl
replace_node_self dec k p c ((q, e) ∷ ps) f = ground (arith, replace_node_self dec k p c ps)
