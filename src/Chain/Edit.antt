-- ===== src/Chain/Edit.antt =====
-- Taking a cell out of a ring, and putting one in at the front or at the back.
use pacecache.Prelude.{
  ◌≡◌, ◌≢◌, sym, subst, inl, inr, true, Bool-cases, ==_iff, List, [], ◌∷◌, ◌++◌, arith, ◌==◌, ◌∈◌,
  ◌∉◌, Distinct, erase, has-erase, erase-Distinct, has-append,
}
use pacecache.Chain.{Ptr, nil, write, Chain, Ring, Chain-frame, previous-mem, next-mem, last-mem}

-- `x` leaves: its neighbours are joined, and its own links are cleared.
abbrev pub unlinked_next : (nx pv : Ptr → Ptr) → Ptr → Ptr → Ptr
unlinked_next nx pv x = write (write nx (pv x) (nx x)) x nil

abbrev pub unlinked_previous : (nx pv : Ptr → Ptr) → Ptr → Ptr → Ptr
unlinked_previous nx pv x = write (write pv (nx x) (pv x)) x nil

-- `x` comes between `u` and `v`.
abbrev pub linked_next : (nx : Ptr → Ptr) → (u x v : Ptr) → Ptr → Ptr
linked_next nx u x v = write (write nx u x) x v

abbrev pub linked_previous : (pv : Ptr → Ptr) → (u x v : Ptr) → Ptr → Ptr
linked_previous pv u x v = write (write pv v x) x u

module _ (nx pv : Ptr → Ptr) (x : Ptr) where
  -- The cell that leaves is the first.
  unlink_first :
      (a : Ptr) (xs : List Ptr) (b : Ptr)
      → Chain nx pv a (x ∷ xs) b
      → a ≢ x
      → b ≢ x
      → a ∉ xs
      → b ∉ xs
      → x ∉ xs
      → Distinct xs
      → Chain (unlinked_next nx pv x) (unlinked_previous nx pv x) a xs b
  unlink_first a [] b c ax bx axs bxs xxs d = ground arith
  unlink_first a (z ∷ xs) b c ax bx axs bxs xxs d = (
    ground arith,
    ground arith,
    Chain-frame (unlinked_next nx pv x) (unlinked_previous nx pv x) z xs b c.2.2
        (λ p h. ground arith) (λ p h. ground arith),
  )

module _ (nx pv : Ptr → Ptr) (x : Ptr) where
  pub unlink-Chain :
      (a : Ptr) (xs : List Ptr) (b : Ptr)
      → Chain nx pv a xs b
      → a ∉ xs
      → b ∉ xs
      → Distinct xs
      → x ∈ xs
      → Chain (unlinked_next nx pv x) (unlinked_previous nx pv x) a (erase x xs) b
  unlink-Chain a [] b c axs bxs d h = ground arith
  unlink-Chain a (y ∷ xs) b c axs bxs d h = elim (Bool-cases (x == y)) [
    | inl e ↦ rw e (
        subst (λ t. Chain (unlinked_next nx pv t) (unlinked_previous nx pv t) a xs b) (sym (eq e))
          (unlink_first nx pv y a xs b c (ground arith) (ground arith) (ground arith) (ground arith)
            d.0 d.1))
    | inr e ↦ rw e (
      ground (arith, previous-mem nx pv x y xs b c.2),
      ground (arith, next-mem nx pv x y xs b c.2),
      unlink-Chain y xs b c.2 d.0 (ground arith) d.1 (ground arith),
    )
  ]
    where
      eq : (x == y) ≡ true → x ≡ y
      eq e = (==_iff x y).0 e

  pub unlink-Ring :
      (xs : List Ptr)
      → Ring nx pv xs
      → x ∈ xs
      → Ring (unlinked_next nx pv x) (unlinked_previous nx pv x) (erase x xs)
  unlink-Ring xs r h = record {
    chain = unlink-Chain nil xs nil r.chain r.proper r.proper r.distinct h;
    proper = ground (arith, has-erase x nil xs r.distinct);
    distinct = erase-Distinct x xs r.distinct;
  }

  pub push_front-Ring :
      (xs : List Ptr)
      → Ring nx pv xs
      → x ≢ nil
      → x ∉ xs
      → Ring (linked_next nx nil x (nx nil)) (linked_previous pv nil x (nx nil)) (x ∷ xs)
  push_front-Ring [] r xn h = record {
    chain = ground arith;
    proper = ground arith;
    distinct = ground arith;
  }
  push_front-Ring (z ∷ xs) r xn h = record {
    chain = (ground arith, ground arith, (ground arith, ground arith, rest));
    proper = ground (arith, r.proper);
    distinct = (h, r.distinct);
  }
    where
      rest : Chain (linked_next nx nil x (nx nil)) (linked_previous pv nil x (nx nil)) z xs nil
      rest =
          Chain-frame (linked_next nx nil x (nx nil)) (linked_previous pv nil x (nx nil)) z xs nil
            r.chain.2 (λ p i. ground (arith, r.proper))
            (λ p i. ground (arith, r.proper, r.distinct))

  link_last-Chain :
      (a : Ptr) (xs : List Ptr) (b : Ptr)
      → Chain nx pv a xs b
      → a ∉ xs
      → b ∉ xs
      → x ≢ a
      → x ≢ b
      → x ∉ xs
      → Distinct xs
      → Chain (linked_next nx (pv b) x b) (linked_previous pv (pv b) x b) a (xs ++ x ∷ []) b
  link_last-Chain a [] b c axs bxs xa xb h d = ground arith
  link_last-Chain a (y ∷ xs) b c axs bxs xa xb h d = (
    ground (arith, last-mem nx pv y xs b c.2),
    ground arith,
    link_last-Chain y xs b c.2 d.0 (ground arith) (ground arith) xb (ground arith) d.1,
  )

  snoc-Distinct : (xs : List Ptr) → x ∉ xs → Distinct xs → Distinct (xs ++ x ∷ [])
  snoc-Distinct [] h d = ground arith
  snoc-Distinct (y ∷ xs) h d = ground (arith, has-append y xs (x ∷ []), snoc-Distinct xs)

  pub push_back-Ring :
      (xs : List Ptr)
      → Ring nx pv xs
      → x ≢ nil
      → x ∉ xs
      → Ring (linked_next nx (pv nil) x nil) (linked_previous pv (pv nil) x nil) (xs ++ x ∷ [])
  push_back-Ring xs r xn h = record {
    chain = link_last-Chain nil xs nil r.chain r.proper r.proper xn xn h r.distinct;
    proper = ground (arith, has-append nil xs (x ∷ []), r.proper);
    distinct = snoc-Distinct xs h r.distinct;
  }
