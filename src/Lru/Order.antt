-- ===== src/Lru/Order.antt =====
-- The list operations of segment.go on the order of the entries, most recently used first.
use pacecache.Prelude.{
  ◌≡◌, refl, subst, ◌≢◌, inl, inr, Bool-cases, List, [], ◌∷◌, arith, ◌==◌, if◌then◌else◌, ◌∈◌, ◌∉◌,
  erase, has-erase,
}
use pacecache.Chain.{Ptr, nil, Ring, Ring-ext, previous-ne, first-mem, last_or, last-eq}
use pacecache.Chain.Edit.{
  unlinked_next, unlinked_previous, linked_next, linked_previous, unlink-Ring, push_front-Ring,
}
use pacecache.Lru.{Lru, no_links, push_front, unlink, move_to_front}

-- The links with the head as what follows nil, and the tail as what precedes it.
abbrev pub forward : Lru → Ptr → Ptr
forward l p = if p == nil then l.head else l.next p

abbrev pub backward : Lru → Ptr → Ptr
backward l p = if p == nil then l.tail else l.previous p

-- The list holds the entries `xs`, most recently used first.
abbrev pub InOrder : Lru → List Ptr → Type 0
InOrder l xs = Ring (forward l) (backward l) xs

pub no_links-InOrder : InOrder no_links []
no_links-InOrder = record { chain = (refl, refl); proper = refl; distinct = tt }

module _ (l : Lru) (x : Ptr) where
  forward-unlink :
      (p : Ptr)
      → x ≢ nil
      → backward l x ≢ x
      → unlinked_next (forward l) (backward l) x p ≡ forward (unlink l x) p
  unfolding unlink
  forward-unlink p h g = ground arith

  backward-unlink :
      (p : Ptr)
      → x ≢ nil
      → backward l x ≢ x
      → unlinked_previous (forward l) (backward l) x p ≡ backward (unlink l x) p
  unfolding unlink
  backward-unlink p h g = ground arith

  -- Unlinking takes the entry out and keeps the order of the others.
  pub unlink-InOrder : {xs : List Ptr} → InOrder l xs → x ∈ xs → InOrder (unlink l x) (erase x xs)
  unlink-InOrder {xs} r h =
      Ring-ext _ _ (forward (unlink l x)) (backward (unlink l x)) (erase x xs)
        (unlink-Ring (forward l) (backward l) x xs r h) (λ p. forward-unlink p proper apart)
        (λ p. backward-unlink p proper apart)
    where
      proper : x ≢ nil
      proper = ground (arith, r.proper)

      apart : backward l x ≢ x
      apart = previous-ne (forward l) (backward l) x nil xs nil r.chain r.proper r.distinct h

  forward-push_front :
      (p : Ptr)
      → x ≢ nil
      → linked_next (forward l) nil x (forward l nil) p ≡ forward (push_front l x) p
  unfolding push_front
  forward-push_front p h = ground arith

  backward-push_front :
      (p : Ptr)
      → x ≢ nil
      → l.head ≢ x
      → linked_previous (backward l) nil x (forward l nil) p ≡ backward (push_front l x) p
  unfolding push_front
  backward-push_front p h g = ground arith

  -- A pushed entry comes first.
  pub push_front-InOrder :
      {xs : List Ptr} → InOrder l xs → x ≢ nil → x ∉ xs → InOrder (push_front l x) (x ∷ xs)
  push_front-InOrder {xs} r h out =
      Ring-ext _ _ (forward (push_front l x)) (backward (push_front l x)) (x ∷ xs)
        (push_front-Ring (forward l) (backward l) x xs r h out) (λ p. forward-push_front p h)
        (λ p.
          backward-push_front p h
            (ground (arith, first-mem (forward l) (backward l) nil xs nil r.chain)))

erase-first : (x y : Ptr) (ys : List Ptr) → x ≡ y → (y ∷ ys) ≡ (x ∷ erase x (y ∷ ys))
erase-first x y ys e = ground arith

module _ (l : Lru) (x : Ptr) where
  -- Moving an entry of the list to the front gives a well-linked list in which it comes first and
  -- the others keep their order.
  pub move_to_front-InOrder :
      {xs : List Ptr} → InOrder l xs → x ∈ xs → InOrder (move_to_front l x) (x ∷ erase x xs)
  unfolding move_to_front
  move_to_front-InOrder {xs} r h = elim (Bool-cases (l.head == x)) [
    | inl e ↦ rw e (first xs r h (ground arith))
    | inr e ↦ rw e (
        push_front-InOrder (unlink l x) x (unlink-InOrder l x r h) (ground (arith, r.proper))
          (ground (arith, has-erase x x xs r.distinct)))
  ]
    where
      first : (ys : List Ptr) → InOrder l ys → x ∈ ys → l.head ≡ x → InOrder l (x ∷ erase x ys)
      first [] q i e = ground arith
      first (y ∷ ys) q i e = subst (InOrder l) (erase-first x y ys (ground (arith, q.chain))) q

module _ (l : Lru) where
  -- The tail is the last entry of the order.
  pub tail-last : {xs : List Ptr} → InOrder l xs → l.tail ≡ last_or nil xs
  tail-last {xs} r = last-eq (forward l) (backward l) nil xs nil r.chain
