-- ===== src/Expiration/Heap/Sift.antt =====
-- `up` and `down` of container/heap restore the order of a heap with one bucket out of place.
use pacecache.Prelude.{
  ℕ, zero, suc, ◌+◌, ◌*◌, ◌≤◌, ◌<◌, ◌≡◌, ◌≢◌, ◌⊎◌, inl, inr, refl, ◌∙◌, Bool, true, false,
  Bool-cases, arith, leb, ◌==◌, ◌||◌, not,
}
use pacecache.Expiration.Heap.{BucketPtr, Heap, swap, less, up, child, down, settle}
use pacecache.Expiration.Heap.Order.{
  Placed, SameBuckets, parent, Ordered, swap-Placed, swap-SameBuckets, ids-swap, slots-swap_ne,
}

pub SameBuckets-refl : (h : Heap) → SameBuckets h h
SameBuckets-refl h = record { length = refl; same = λ b. (λ e. e, λ e. e) }

pub SameBuckets-trans : {h g f : Heap} → SameBuckets h g → SameBuckets g f → SameBuckets h f
SameBuckets-trans a c = record {
  length = c.length ∙ a.length;
  same = λ b. (λ e. (a.same b).0 ((c.same b).0 e), λ e. (c.same b).1 ((a.same b).1 e));
}

module _ (ids : BucketPtr → ℕ) where
  -- The first `n` slots are in order but for the bucket at `j`, which may be before its parent.
  pub record UpReady (h : Heap) (n j : ℕ) : Type 0 where
    pub order : (i : ℕ) → 0 < i → i < n → i ≢ j → ids (h.slots (parent i)) ≤ ids (h.slots i)
    pub grand :
        (i : ℕ) → 0 < i → i < n → parent i ≡ j → 0 < j → ids (h.slots (parent j)) ≤ ids (h.slots i)

  -- What a sift over the first `n` slots makes of `h`.
  pub record Sifted (h g : Heap) (n : ℕ) : Type 0 where
    pub ordered : Ordered ids g n
    pub placed : Placed g
    pub same : SameBuckets h g
    pub above : (i : ℕ) → n ≤ i → g.slots i ≡ h.slots i

  module _ (h : Heap) (n j : ℕ) (top : j < n) (r : UpReady h n j) (pos : 0 < j)
      (before : ids (h.slots j) < ids (h.slots (parent j))) where
    up_step : UpReady (swap h (parent j) j) n (parent j)
    up_step = record {
      order = λ i low high other. ground (
        arith,
        ids-swap ids h (parent j) j i,
        ids-swap ids h (parent j) j (parent i),
        r.order i low high,
        r.grand i low high,
        before,
      );
      grand = λ i low high e above. ground (
        arith,
        ids-swap ids h (parent j) j i,
        ids-swap ids h (parent j) j (parent (parent j)),
        r.order i low high,
        r.order (parent j) above,
        before,
      );
    }

  swapped :
      (h g : Heap) (n l r : ℕ)
      → Placed h
      → l < n
      → r < n
      → n ≤ h.len
      → Sifted (swap h l r) g n
      → Sifted h g n
  swapped h g n l r p lh rh le s = record {
    ordered = s.ordered;
    placed = s.placed;
    same = SameBuckets-trans (swap-SameBuckets h p l r (omega arith) (omega arith)) s.same;
    above = λ i far. s.above i far ∙ slots-swap_ne h l r i (omega arith) (omega arith);
  }

  pub up-Sifted :
      (n fuel j : ℕ) (h : Heap)
      → j ≤ fuel
      → j < n
      → n ≤ h.len
      → Placed h
      → UpReady h n j
      → Sifted h (up ids fuel j h) n
  unfolding up
  up-Sifted n zero j h f top le p r = record {
    ordered = λ i low high. r.order i low high (omega arith);
    placed = p;
    same = SameBuckets-refl h;
    above = λ i far. refl;
  }
  up-Sifted n (suc fuel) j h f top le p r =
      elim (Bool-cases ((parent j == j) || not (less ids h j (parent j)))) [
        | inl stop ↦
            rw (stop, up)
              (record {
                ordered = λ i low high. elim (Bool-cases (i == j)) [
                  | inl e ↦ ground arith
                  | inr e ↦ r.order i low high (ground arith)
                ];
                placed = p;
                same = SameBuckets-refl h;
                above = λ i far. refl;
              })
        | inr go ↦
            rw (go, up)
              (swapped h (up ids fuel (parent j) (swap h (parent j) j)) n (parent j) j p
                (omega arith) top le
                (up-Sifted n fuel (parent j) (swap h (parent j) j) (ground arith) (omega arith)
                  (omega
                    (arith, (swap-SameBuckets h p (parent j) j (omega arith) (omega arith)).length))
                  (swap-Placed h p (parent j) j (omega arith) (omega arith))
                  (up_step h n j top r (ground arith) (ground arith))))
      ]

  -- The first `n` slots are in order but for the bucket at `i`.
  pub record DownReady (h : Heap) (n i : ℕ) : Type 0 where
    pub order :
        (m : ℕ) → 0 < m → m < n → m ≢ i → parent m ≢ i → ids (h.slots (parent m)) ≤ ids (h.slots m)
    pub grand :
        (m : ℕ) → 0 < m → m < n → parent m ≡ i → 0 < i → ids (h.slots (parent i)) ≤ ids (h.slots m)

  -- The smaller child is a child, and no child is before it.
  child_lem :
      (h : Heap) (n i : ℕ)
      → 2 * i + 1 < n
      → (parent (child ids h i n) ≡ i)
        × (i < child ids h i n)
        × (child ids h i n < n)
        × ((m : ℕ)
            → 0 < m
            → m < n
            → parent m ≡ i
            → ids (h.slots (child ids h i n)) ≤ ids (h.slots m))
  child_lem h n i some =
      (ground arith, ground arith, ground arith, λ m low high e. child_min m low high e)
    where
      child_min :
          (m : ℕ) → 0 < m → m < n → parent m ≡ i → ids (h.slots (child ids h i n)) ≤ ids (h.slots m)
      child_min m low high e =
          let either : (m ≡ 2 * i + 1) ⊎ (m ≡ 2 * i + 1 + 1) = omega arith in ground (arith, either)

  module _ (h : Heap) (n i j : ℕ) (r : DownReady h n i) (under : parent j ≡ i) (deeper : i < j)
      (inside : j < n)
      (least : (m : ℕ) → 0 < m → m < n → parent m ≡ i → ids (h.slots j) ≤ ids (h.slots m))
      (after : ids (h.slots j) < ids (h.slots i)) where
    down_step : DownReady (swap h i j) n j
    down_step = record {
      order = λ m low high other away. ground (
        arith,
        ids-swap ids h i j m,
        ids-swap ids h i j (parent m),
        r.order m low high,
        r.grand j,
        least m low high,
        after,
      );
      grand = λ m low high e above.
          ground
            (arith, ids-swap ids h i j m, ids-swap ids h i j (parent j), r.order m low high, after);
    }

    -- After the exchange the bucket at `j` is behind its parent.
    down_step-behind : ids ((swap h i j).slots (parent j)) ≤ ids ((swap h i j).slots j)
    down_step-behind = ground (arith, ids-swap ids h i j j, ids-swap ids h i j (parent j), after)

  abbrev stops : Heap → (i n : ℕ) → Bool
  stops h i n = leb n (2 * i + 1) || not (less ids h (child ids h i n) i)

  -- Where `down` stops, no child is before its parent.
  stopped :
      (h : Heap) (n i : ℕ)
      → stops h i n ≡ true
      → (m : ℕ) → 0 < m
      → m < n
      → parent m ≡ i
      → ids (h.slots i) ≤ ids (h.slots m)
  stopped h n i stop m low high e =
      let (_, _, _, least) = child_lem h n i (omega arith) in ground (arith, stop, least m low high)

  -- With the bucket at `i` not before its parent, `down` restores the order.
  pub down-Sifted :
      (n fuel i : ℕ) (h : Heap)
      → n ≤ fuel + i
      → i < n
      → n ≤ h.len
      → Placed h
      → DownReady h n i
      → (0 < i → ids (h.slots (parent i)) ≤ ids (h.slots i))
      → Sifted h (down ids fuel i n h).0 n × (i ≤ (down ids fuel i n h).1)
  unfolding down
  down-Sifted n zero i h f inside le p r behind = absurd (omega arith)
  down-Sifted n (suc fuel) i h f inside le p r behind = elim (Bool-cases (stops h i n)) [
    | inl stop ↦
        rw (stop, down)
          (
            record {
              ordered = λ m low high. elim (Bool-cases (m == i)) [
                | inl e ↦ ground (arith, behind)
                | inr e ↦ ground (arith, r.order m low high, stopped h n i stop m low high)
              ];
              placed = p;
              same = SameBuckets-refl h;
              above = λ m far. refl;
            },
            omega arith,
          )
    | inr go ↦
        let j = child ids h i n in
        let (under, deeper, within, least) = child_lem h n i (ground arith) in
        let after : ids (h.slots j) < ids (h.slots i) = ground arith in
        let g = swap h i j in
        let q = swap-Placed h p i j (omega arith) (omega arith) in
        let len = (swap-SameBuckets h p i j (omega arith) (omega arith)).length in
        let (s, far) =
          down-Sifted n fuel j g (omega arith) within (omega arith) q
            (down_step h n i j r under deeper within least after)
            (λ _. down_step-behind h n i j r under deeper within least after) in
        rw (go, down) (swapped h (down ids fuel j n g).0 n i j p inside within le s, omega arith)
  ]

  settle_still :
      (n i : ℕ) (h : Heap) → stops h i (suc n) ≡ true → settle ids i (suc n) h ≡ up ids (suc i) i h
  unfolding settle down
  settle_still n i h e = ground (arith, e)

  settle_moved :
      (n i : ℕ) (h : Heap)
      → stops h i (suc n) ≡ false
      → i < (down ids n (child ids h i (suc n)) (suc n) (swap h i (child ids h i (suc n)))).1
      → settle ids i (suc n) h
        ≡ (down ids n (child ids h i (suc n)) (suc n) (swap h i (child ids h i (suc n)))).0
  unfolding settle down
  settle_moved n i h e far = ground (arith, e, far)

  -- `down`, and then `up` if it did not move, restore the order whatever the bucket at `i` became.
  pub settle-Sifted :
      (n i : ℕ) (h : Heap)
      → i < n
      → n ≤ h.len
      → Placed h
      → DownReady h n i
      → Sifted h (settle ids i n h) n
  settle-Sifted zero i h inside le p r = absurd (omega arith)
  settle-Sifted (suc n) i h inside le p r = elim (Bool-cases (stops h i (suc n))) [
    | inl stop ↦ rw (settle_still n i h stop) (
        up-Sifted (suc n) (suc i) i h (omega arith) inside le p (record {
          order = λ m low high other. elim (Bool-cases (parent m == i)) [
            | inl e ↦ ground (arith, stopped h (suc n) i stop m low high)
            | inr e ↦ r.order m low high other (ground arith)
          ];
          grand = r.grand;
        }))
    | inr go ↦
        let j = child ids h i (suc n) in
        let (under, deeper, within, least) = child_lem h (suc n) i (ground arith) in
        let after : ids (h.slots j) < ids (h.slots i) = ground arith in
        let g = swap h i j in
        let q = swap-Placed h p i j (omega arith) (omega arith) in
        let len = (swap-SameBuckets h p i j (omega arith) (omega arith)).length in
        let (s, far) =
          down-Sifted (suc n) n j g (omega arith) within (omega arith) q
            (down_step h (suc n) i j r under deeper within least after)
            (λ _. down_step-behind h (suc n) i j r under deeper within least after) in
        rw (settle_moved n i h go (omega arith))
          (swapped h (down ids n j (suc n) g).0 (suc n) i j p inside within le s)
  ]
