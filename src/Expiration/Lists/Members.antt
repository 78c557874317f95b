-- ===== src/Expiration/Lists/Members.antt =====
-- Which entries the buckets of expiration.go hold, and in which order: the lists of the buckets have
-- no entry in common.
use pacecache.Prelude.{
  ◌-◌, ◌≡◌, ◌≢◌, refl, subst, sym, inl, inr, Bool-cases, some, List, [], ◌∷◌, ◌++◌, ok, arith, ◌==◌,
  if◌then◌else◌, length, length-append, length-erase, ◌∈◌, ◌∉◌, erase, has-erase, has-append,
  ==_iff,
}
use pacecache.Chain.{
  Ptr, nil, write, Ring, Ring-ext, Chain-frame, previous-ne, previous-mem, next-mem, last-mem,
  last-inside,
}
use pacecache.Chain.Edit.{
  unlinked_next, unlinked_previous, linked_next, linked_previous, unlink-Ring, push_back-Ring,
}
use pacecache.Expiration.Heap.{BucketPtr}
use pacecache.Expiration.Lists.{BucketLists, no_lists, push_back, remove, pop_back, blank}

abbrev pub forward : BucketLists → BucketPtr → Ptr → Ptr
forward l b p = if p == nil then l.heads b else l.next p

abbrev pub backward : BucketLists → BucketPtr → Ptr → Ptr
backward l b p = if p == nil then l.tails b else l.previous p

pub record Holds (l : BucketLists) (items : BucketPtr → List Ptr) : Type 0 where
  pub ring : (b : BucketPtr) → Ring (forward l b) (backward l b) (items b)
  pub count : (b : BucketPtr) → l.counts b ≡ length (items b)
  pub disjoint : (p : Ptr) (b c : BucketPtr) → p ∈ items b → p ∈ items c → b ≡ c

-- A list is unchanged by writes to other cells.
other-Ring :
    (l l' : BucketLists) (c : BucketPtr) (xs : List Ptr)
    → Ring (forward l c) (backward l c) xs
    → ((q : Ptr) → q ∈ (nil ∷ xs) → forward l' c q ≡ forward l c q)
    → ((q : Ptr) → q ∈ (nil ∷ xs) → backward l' c q ≡ backward l c q)
    → Ring (forward l' c) (backward l' c) xs
other-Ring l l' c xs r f g = record {
  chain = Chain-frame (forward l' c) (backward l' c) nil xs nil r.chain f g;
  proper = r.proper;
  distinct = r.distinct;
}

-- The ring of one bucket changes, the others stay.
write-Ring :
    (l' : BucketLists) (items : BucketPtr → List Ptr) (b : BucketPtr) (xs : List Ptr)
    → Ring (forward l' b) (backward l' b) xs
    → ((c : BucketPtr) → c ≢ b → Ring (forward l' c) (backward l' c) (items c))
    → (c : BucketPtr) → Ring (forward l' c) (backward l' c) (write items b xs c)
write-Ring l' items b xs r others c = elim (Bool-cases (c == b)) [
  | inl e ↦ rw e (subst (λ t. Ring (forward l' t) (backward l' t) xs) (sym ((==_iff c b).0 e)) r)
  | inr e ↦ rw e (others c (ground arith))
]

module _ (l : BucketLists) (items : BucketPtr → List Ptr) (h : Holds l items) (b : BucketPtr) where
  tail-mem : l.tails b ∈ (nil ∷ items b)
  tail-mem = last-mem (forward l b) (backward l b) nil (items b) nil (h.ring b).chain

  module _ (p : Ptr) where
    pushed_forward :
        (q : Ptr)
        → p ≢ nil
        → l.tails b ≢ p
        → linked_next (forward l b) (l.tails b) p nil q ≡ forward (push_back l b p) b q
    unfolding push_back
    pushed_forward q proper ne = ground arith

    pushed_backward :
        (q : Ptr)
        → p ≢ nil
        → l.tails b ≢ p
        → linked_previous (backward l b) (l.tails b) p nil q ≡ backward (push_back l b p) b q
    unfolding push_back
    pushed_backward q proper ne = ground arith

    pub push_back-Holds :
        p ≢ nil
        → ((c : BucketPtr) → p ∉ items c)
        → Holds (push_back l b p) (write items b (items b ++ p ∷ []))
    unfolding push_back
    push_back-Holds proper out = record {
      ring =
          write-Ring (push_back l b p) items b (items b ++ p ∷ [])
            (Ring-ext _ _ (forward (push_back l b p) b) (backward (push_back l b p) b)
              (items b ++ p ∷ [])
              (push_back-Ring (forward l b) (backward l b) p (items b) (h.ring b) proper (out b))
              (λ q. pushed_forward q proper apart) (λ q. pushed_backward q proper apart))
            (λ c ne.
              other-Ring l (push_back l b p) c (items c) (h.ring c)
                (λ q i. ground (arith, out c, tail-mem, h.disjoint q b c))
                (λ q i. ground (arith, out c, tail-mem)));
      count = λ c. ground (arith, h.count b, h.count c, length-append (items b) (p ∷ []));
      disjoint = λ q c d i j.
          ground (arith, h.disjoint q c d, has-append q (items b) (p ∷ []), out c, out d);
    }
      where
        apart : l.tails b ≢ p
        apart = ground (arith, tail-mem, out b)

  module _ (p : Ptr) (inside : p ∈ items b) where
    proper_entry : p ≢ nil
    proper_entry = ground (arith, (h.ring b).proper)

    apart_entry : backward l b p ≢ p
    apart_entry =
        previous-ne (forward l b) (backward l b) p nil (items b) nil (h.ring b).chain
          (h.ring b).proper (h.ring b).distinct inside

    -- The bucket without the entry.
    removed : BucketLists
    removed = record {
      heads = if l.previous p == nil then write l.heads b (l.next p) else l.heads;
      tails = if l.next p == nil then write l.tails b (l.previous p) else l.tails;
      counts = write l.counts b (l.counts b - 1);
      previous =
          write (if l.next p == nil then l.previous else write l.previous (l.next p) (l.previous p))
            p nil;
      next =
          write (if l.previous p == nil then l.next else write l.next (l.previous p) (l.next p)) p
            nil;
    }

    some_entry : l.counts b ≢ 0
    some_entry = ground (arith, h.count b, length-erase p (items b))

    remove-removed : remove l b p ≡ ok removed
    unfolding remove removed
    remove-removed = ground (arith, some_entry)

    removed-forward :
        (q : Ptr) → unlinked_next (forward l b) (backward l b) p q ≡ forward removed b q
    unfolding removed
    removed-forward q = ground (arith, proper_entry, apart_entry)

    removed-backward :
        (q : Ptr) → unlinked_previous (forward l b) (backward l b) p q ≡ backward removed b q
    unfolding removed
    removed-backward q = ground (arith, proper_entry, apart_entry)

    previous_inside : backward l b p ∈ (nil ∷ items b)
    previous_inside =
        previous-mem (forward l b) (backward l b) p nil (items b) nil (h.ring b).chain inside

    next_inside : forward l b p ∈ (nil ∷ items b)
    next_inside = next-mem (forward l b) (backward l b) p nil (items b) nil (h.ring b).chain inside

    removed_count :
        (c : BucketPtr) → removed.counts c ≡ length (write items b (erase p (items b)) c)
    unfolding removed
    removed_count c = ground (arith, h.count b, h.count c, length-erase p (items b))

    other_forward :
        (c : BucketPtr)
        → c ≢ b
        → (q : Ptr) → q ∈ (nil ∷ items c)
        → forward removed c q ≡ forward l c q
    unfolding removed
    other_forward c ne q i = ground (arith, proper_entry, previous_inside, h.disjoint q b c)

    other_backward :
        (c : BucketPtr)
        → c ≢ b
        → (q : Ptr) → q ∈ (nil ∷ items c)
        → backward removed c q ≡ backward l c q
    unfolding removed
    other_backward c ne q i = ground (arith, proper_entry, next_inside, h.disjoint q b c)

    -- Removing an entry from the bucket that holds it succeeds and takes it out of that bucket's
    -- list; the links, the counts and the other buckets stay right.
    pub remove-Holds :
        (l' : BucketLists) × (remove l b p ≡ ok l') × Holds l' (write items b (erase p (items b)))
    remove-Holds = (
      removed,
      remove-removed,
      record {
        ring =
            write-Ring removed items b (erase p (items b))
              (Ring-ext _ _ (forward removed b) (backward removed b) (erase p (items b))
                (unlink-Ring (forward l b) (backward l b) p (items b) (h.ring b) inside)
                removed-forward removed-backward)
              (λ c ne.
                other-Ring l removed c (items c) (h.ring c) (λ q i. other_forward c ne q i)
                  (λ q i. other_backward c ne q i));
        count = removed_count;
        disjoint = λ q c d i j.
            ground (arith, h.disjoint q c d, has-erase p q (items b) (h.ring b).distinct);
      },
    )

  -- The last entry of a bucket that is not empty is popped.
  pub pop_back-Holds :
      items b ≢ []
      → (p : Ptr) × (l' : BucketLists) × (pop_back l b ≡ ok (l', some p))
        × (p ∈ items b)
        × Holds l' (write items b (erase p (items b)))
  unfolding pop_back
  pop_back-Holds filled =
      let (l', eq, holds) = remove-Holds (l.tails b) last_inside in
      (l.tails b, l', ground (arith, proper_entry (l.tails b) last_inside, eq), last_inside, holds)
    where
      last_inside : l.tails b ∈ items b
      last_inside =
          last-inside (forward l b) (backward l b) nil (items b) nil (h.ring b).chain filled

  -- A bucket with no entries is blank already.
  pub blank-Holds : items b ≡ [] → Holds (blank l b) items
  unfolding blank
  blank-Holds e = record {
    ring = λ c.
        Ring-ext _ _ (forward (blank l b) c) (backward (blank l b) c) (items c) (h.ring c)
          (λ q. ground (arith, (h.ring c).chain)) (λ q. ground (arith, (h.ring c).chain));
    count = λ c. ground (arith, h.count c);
    disjoint = h.disjoint;
  }

pub no_lists-Holds : Holds no_lists (λ _. [])
no_lists-Holds = record {
  ring = λ b. record { chain = ground arith; proper = refl; distinct = tt };
  count = λ b. refl;
  disjoint = λ p b c i j. ground arith;
}
