-- ===== src/Expiration/Heap/Edits.antt =====
-- `Push`, `Pop`, `Remove` and `Fix` of container/heap keep the heap well formed, and change which
-- buckets are in it as they should.
use pacecache.Prelude.{
  ℕ, zero, suc, ◌-◌, ◌≤◌, ◌<◌, ◌≡◌, ◌≢◌, ◌↔◌, inl, inr, refl, ap, ◌∙◌, Bool-cases, none, some,
  arith, ◌!=◌,
}
use pacecache.Expiration.Heap.{
  BucketPtr, Heap, swap, append, chop, up, down, settle, push, pop, remove,
}
use pacecache.Expiration.Heap.Order.{
  Placed, SameBuckets, parent, Ordered, swap-Placed, swap-SameBuckets, ids-swap,
}
use pacecache.Expiration.Heap.Sift.{
  UpReady, DownReady, Sifted, up-Sifted, down-Sifted, settle-Sifted, SameBuckets-refl,
}

pub record WellFormed (ids : BucketPtr → ℕ) (h : Heap) : Type 0 where
  pub placed : Placed h
  pub ordered : Ordered ids h h.len

-- `g` holds the buckets of `h` and `b`.
pub record Gains (h g : Heap) (b : BucketPtr) : Type 0 where
  pub present : g.index b ≢ none
  pub others : (c : BucketPtr) → c ≢ b → (g.index c ≡ none) ↔ (h.index c ≡ none)

-- `g` holds the buckets of `h` but not `b`.
pub record Loses (h g : Heap) (b : BucketPtr) : Type 0 where
  pub absent : g.index b ≡ none
  pub others : (c : BucketPtr) → c ≢ b → (g.index c ≡ none) ↔ (h.index c ≡ none)

module _ (h : Heap) (p : Placed h) where
  append-Placed : (b : BucketPtr) → h.index b ≡ none → Placed (append h b)
  unfolding append
  append-Placed b new = record {
    positions = λ i lt. ground (arith, p.positions i);
    members = λ c i e. ground (arith, p.members c i);
  }

  module _ (some_bucket : 0 < h.len) where
    chop-Placed : Placed (chop h)
    unfolding chop
    chop-Placed = record {
      positions = λ i lt. ground (arith, p.positions i, p.positions (h.len - 1));
      members = λ c i e. ground (arith, p.members c i);
    }

    chop-Loses : Loses h (chop h) (h.slots (h.len - 1))
    unfolding chop
    chop-Loses = record {
      absent = ground arith;
      others = λ c other. (λ e. ground arith, λ e. ground arith);
    }

module _ (ids : BucketPtr → ℕ) (h : Heap) (w : WellFormed ids h) where
  push_lem : (b : BucketPtr) → push ids h b ≡ up ids (suc h.len) h.len (append h b)
  unfolding push append
  push_lem b = ap (λ n. up ids (suc h.len) n (append h b)) (omega arith)

  appended-UpReady : (b : BucketPtr) → UpReady ids (append h b) (suc h.len) h.len
  unfolding append
  appended-UpReady b = record {
    order = λ i low high other. ground (arith, w.ordered i low);
    grand = λ i low high e above. absurd (omega arith);
  }

  append-Gains : (b : BucketPtr) → Gains h (append h b) b
  unfolding append
  append-Gains b = record {
    present = ground arith;
    others = λ c other. (λ e. ground arith, λ e. ground arith);
  }

  append-len : (b : BucketPtr) → (append h b).len ≡ suc h.len
  unfolding append
  append-len b = refl

  pub push-WellFormed :
      (b : BucketPtr) → h.index b ≡ none → WellFormed ids (push ids h b) × Gains h (push ids h b) b
  push-WellFormed b new =
      let s =
        up-Sifted ids (suc h.len) (suc h.len) h.len (append h b) (omega arith) (omega arith)
          (omega (arith, append-len b)) (append-Placed h w.placed b new) (appended-UpReady b) in
      let length : (up ids (suc h.len) h.len (append h b)).len ≡ suc h.len =
        s.same.length ∙ append-len b in
      let gains = append-Gains b in
      rw (push_lem b) (
        record { placed = s.placed; ordered = rw length s.ordered },
        record {
          present = λ e. gains.present ((s.same.same b).0 e);
          others = λ c other. (
            λ e. (gains.others c other).0 ((s.same.same c).0 e),
            λ e. (s.same.same c).1 ((gains.others c other).1 e),
          );
        },
      )

  chop-len : (g : Heap) → (chop g).len ≡ g.len - 1
  unfolding chop
  chop-len g = refl

  chop-slots : (g : Heap) (i : ℕ) → (chop g).slots i ≡ g.slots i
  unfolding chop
  chop-slots g i = refl

  -- The last bucket is dropped from a heap whose other slots are in order.
  chop-WellFormed :
      (g : Heap) (b : BucketPtr)
      → Placed g
      → 0 < h.len
      → g.len ≡ h.len
      → Ordered ids g (h.len - 1)
      → ((c : BucketPtr) → (g.index c ≡ none) ↔ (h.index c ≡ none))
      → g.slots (h.len - 1) ≡ b
      → WellFormed ids (chop g) × Loses h (chop g) b
  chop-WellFormed g b placed some_bucket length ordered same last =
      let loses = chop-Loses g placed (omega arith) in
      let at : g.slots (g.len - 1) ≡ b = rw length last in
      (
        record {
          placed = chop-Placed g placed (omega arith);
          ordered = λ i low high.
              ground (arith, chop-slots g i, chop-slots g (parent i), chop-len g, ordered i low);
        },
        record {
          absent = rw (← at) loses.absent;
          others = λ c other. (
            λ e. (same c).0 ((loses.others c (λ z. other (z ∙ at))).0 e),
            λ e. (loses.others c (λ z. other (z ∙ at))).1 ((same c).1 e),
          );
        },
      )

  -- The last bucket takes the place of the one at `i`.
  module _ (i : ℕ) (b : BucketPtr) (inside : i < h.len) (here : h.slots i ≡ b) where
    moved : Heap
    moved = swap h i (h.len - 1)

    moved-Placed : Placed moved
    unfolding moved
    moved-Placed = swap-Placed h w.placed i (h.len - 1) inside (omega arith)

    moved-SameBuckets : SameBuckets h moved
    unfolding moved
    moved-SameBuckets = swap-SameBuckets h w.placed i (h.len - 1) inside (omega arith)

    moved-last : moved.slots (h.len - 1) ≡ b
    unfolding moved swap
    moved-last = ground arith

    moved-DownReady : DownReady ids moved (h.len - 1) i
    unfolding moved
    moved-DownReady = record {
      order = λ m low high other away. ground (
        arith,
        ids-swap ids h i (h.len - 1) m,
        ids-swap ids h i (h.len - 1) (parent m),
        w.ordered m low,
      );
      grand = λ m low high e above. ground (
        arith,
        ids-swap ids h i (h.len - 1) m,
        ids-swap ids h i (h.len - 1) (parent i),
        w.ordered m low,
        w.ordered i above inside,
      );
    }

    Sifted-out :
        (g : Heap) → Sifted ids moved g (h.len - 1) → WellFormed ids (chop g) × Loses h (chop g) b
    Sifted-out g s =
        chop-WellFormed g b s.placed (omega arith) (s.same.length ∙ moved-SameBuckets.length)
          s.ordered
          (λ c. (
            λ e. (moved-SameBuckets.same c).0 ((s.same.same c).0 e),
            λ e. (s.same.same c).1 ((moved-SameBuckets.same c).1 e),
          ))
          (s.above (h.len - 1) (omega arith) ∙ moved-last)

  -- Removing the bucket at its recorded position from a well-formed heap keeps the heap well
  -- formed; that bucket is no longer in it, and every other bucket is in it exactly if it was.
  pub remove-WellFormed :
      (b : BucketPtr) (i : ℕ)
      → h.index b ≡ some i
      → WellFormed ids (remove ids h i) × Loses h (remove ids h i) b
  unfolding remove moved
  remove-WellFormed b i at =
      let (inside, here) = w.placed.members b i at in
      elim (Bool-cases ((h.len - 1) != i)) [
        | inl other ↦
            rw (other, remove)
              (Sifted-out i b inside here (settle ids i (h.len - 1) (moved i b inside here)) (
                settle-Sifted ids (h.len - 1) i (moved i b inside here) (ground arith)
                  (omega (arith, (moved-SameBuckets i b inside here).length))
                  (moved-Placed i b inside here) (moved-DownReady i b inside here)))
        | inr last ↦
            rw (last, remove)
              (chop-WellFormed h b w.placed (omega arith) refl
                (λ m low high. w.ordered m low (omega arith)) (λ c. (λ e. e, λ e. e))
                (ground arith))
      ]

  sunk :
      (n : ℕ) (g : Heap)
      → Placed g
      → n ≤ g.len
      → DownReady ids g n 0
      → Sifted ids g (down ids n 0 n g).0 n
  unfolding down
  sunk zero g p le r = record {
    ordered = λ i low high. absurd (omega arith);
    placed = p;
    same = SameBuckets-refl g;
    above = λ i far. refl;
  }
  sunk (suc n) g p le r =
      (down-Sifted ids (suc n) (suc n) 0 g (omega arith) (omega arith) le p r
        (λ z. absurd (omega arith))).0

  pub pop-WellFormed : 0 < h.len → WellFormed ids (pop ids h) × Loses h (pop ids h) (h.slots 0)
  unfolding pop moved
  pop-WellFormed some_bucket =
      Sifted-out 0 (h.slots 0) some_bucket refl
        (down ids (h.len - 1) 0 (h.len - 1) (moved 0 (h.slots 0) some_bucket refl)).0
        (sunk (h.len - 1) (moved 0 (h.slots 0) some_bucket refl)
          (moved-Placed 0 (h.slots 0) some_bucket refl)
          (omega (arith, (moved-SameBuckets 0 (h.slots 0) some_bucket refl).length))
          (moved-DownReady 0 (h.slots 0) some_bucket refl))
