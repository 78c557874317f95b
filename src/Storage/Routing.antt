-- ===== src/Storage/Routing.antt =====
-- `segmentIndex` and the segment capacities of storage.go: every key goes to a segment that exists,
-- by the remainder of its hash, and the capacities add up.
use pacecache.Prelude.{
  ℕ, zero, suc, ◌+◌, ◌-◌, ◌*◌, ◌/◌, ◌%◌, ◌^◌, ◌<◌, ◌≡◌, refl, sym, ap, ◌∙◌, inl, inr, true, false,
  Bool-cases, ok, List, [], ◌∷◌, ◌==◌, ◌!=◌, length, min, arith, subst, ==_iff,
}
use native.Mathlib.Nat.{mod-lt, mul-add-mod_self_left, div-add-mod, mod-eq_of_lt, mod-one}
use pacecache.Storage.{
  Storage, StorageSegment, bit_and, word_bits, segment_mask, new_segments,
  new_storage_with_segments, segment_index,
}

-- A number against the product of 2 and q, from its last bit and the others.
double-mod : (h q : ℕ) → 0 < q → h % (2 * q) ≡ h % 2 + 2 * ((h / 2) % q)
double-mod h q p =
    let c = (h / 2) / q in
    let r = (h / 2) % q in
    let small : h % 2 + 2 * r < 2 * q = omega (arith, mod-lt (h / 2) p) in
    let whole : 2 * q * c + (h % 2 + 2 * r) ≡ h = split c r (div-add-mod (h / 2) q) in
    ap (λ t. t % (2 * q)) (sym whole)
    ∙ mul-add-mod_self_left (2 * q) c (h % 2 + 2 * r)
    ∙ mod-eq_of_lt small
  where
    split : (c r : ℕ) → q * c + r ≡ h / 2 → 2 * q * c + (h % 2 + 2 * r) ≡ h
    split c r e = grind arith

and_self : (bits q : ℕ) → q < 2 ^ bits → bit_and bits q q ≡ q
unfolding bit_and
and_self zero q lt = omega arith
and_self (suc bits) q lt = grind (arith, and_self bits (q / 2) (omega arith))

and_zero : (bits h : ℕ) → bit_and bits h 0 ≡ 0
unfolding bit_and
and_zero zero h = refl
and_zero (suc bits) h = grind (arith, and_zero bits (h / 2))

-- Where n & (n - 1) is 0, the and with n - 1 is the remainder by n.
bit_and-mod :
    (bits n h : ℕ)
    → 0 < n
    → n < 2 ^ bits
    → bit_and bits n (n - 1) ≡ 0
    → bit_and bits h (n - 1) ≡ h % n
unfolding bit_and
bit_and-mod zero n h p lt e = absurd (omega arith)
bit_and-mod (suc bits) n h p lt e = elim (Bool-cases (n % 2 == 0)) [
  | inl even ↦
      let twice : 2 * (n / 2) ≡ n = ground arith in
      let half : (n - 1) / 2 ≡ n / 2 - 1 = ground arith in
      let last : (n - 1) % 2 ≡ 1 = ground arith in
      let rest = bit_and-mod bits (n / 2) (h / 2) (omega arith) (omega arith) (
        ap (bit_and bits (n / 2)) (sym half)
        ∙ evens (n % 2) ((n - 1) % 2) (bit_and bits (n / 2) ((n - 1) / 2)) e) in
      rw (half, last, rest) (grind arith)
      ∙ sym (double-mod h (n / 2) (omega arith))
      ∙ ap (λ t. h % t) twice
  | inr odd ↦
      let half : (n - 1) / 2 ≡ n / 2 = ground arith in
      let zero_half : n / 2 ≡ 0 =
        sym (and_self bits (n / 2) (omega arith))
        ∙ ap (bit_and bits (n / 2)) (sym half)
        ∙ evens (n % 2) ((n - 1) % 2) (bit_and bits (n / 2) ((n - 1) / 2)) e in
      let one : n ≡ 1 = ground arith in rw one (grind (arith, and_zero bits (h / 2)))
]
  where
    evens : (a b c : ℕ) → a * b + 2 * c ≡ 0 → c ≡ 0
    evens a b c z = grind arith

module _ {K V : Type 0} (hash : K → ℕ) (s : Storage K V) (k : K) where
  masked_step :
      (length s.segments == 1) ≡ false
      → (s.mask != 0) ≡ true
      → segment_index hash s k ≡ bit_and word_bits (hash k) s.mask
  unfolding segment_index
  masked_step more m = rw (more, m, segment_index) refl

  unmasked_step :
      (length s.segments == 1) ≡ false
      → (s.mask != 0) ≡ false
      → segment_index hash s k ≡ hash k % length s.segments
  unfolding segment_index
  unmasked_step more m = rw (more, m, segment_index) refl

  single_step : length s.segments ≡ 1 → segment_index hash s k ≡ hash k % length s.segments
  unfolding segment_index
  single_step one = rw (one, segment_index) (sym (mod-one (hash k)))

  mask_power :
      (n : ℕ)
      → (segment_mask n != 0) ≡ true
      → (bit_and word_bits n (n - 1) ≡ 0) × (segment_mask n ≡ n - 1)
  unfolding segment_mask
  mask_power n m = elim (Bool-cases (bit_and word_bits n (n - 1) == 0)) [
    | inl e ↦ ((==_iff (bit_and word_bits n (n - 1)) 0).0 e, rw (e, segment_mask) refl)
    | inr e ↦ ground arith
  ]

  -- In a storage of n segments with the mask of that number, where n is positive and below 2 ^ 64,
  -- a key is routed by the remainder of its hash, whether or not the mask is used, and so to a
  -- segment that exists.
  pub segment_index-mod :
      0 < length s.segments
      → length s.segments < 2 ^ word_bits
      → s.mask ≡ segment_mask (length s.segments)
      → (segment_index hash s k ≡ hash k % length s.segments)
        × (segment_index hash s k < length s.segments)
  segment_index-mod p lt e = (route, rw route (mod-lt (hash k) p))
    where
      route : segment_index hash s k ≡ hash k % length s.segments
      route = elim (Bool-cases (length s.segments == 1)) [
        | inl one ↦ single_step ((==_iff (length s.segments) 1).0 one)
        | inr more ↦ elim (Bool-cases (s.mask != 0)) [
          | inr plain ↦ unmasked_step more plain
          | inl masked ↦
              let (power, same) =
                mask_power (length s.segments) (subst (λ t. (t != 0) ≡ true) e masked) in
              masked_step more masked
              ∙ ap (bit_and word_bits (hash k)) (e ∙ same)
              ∙ bit_and-mod word_bits (length s.segments) (hash k) p lt power
        ]
      ]

abbrev pub total_capacity : {K V : Type 0} → List (StorageSegment K V) → ℕ
total_capacity [] = 0
total_capacity (t ∷ ts) = t.max_entries + total_capacity ts

module _ (K V : Type 0) where
  -- The segments from `index` on have `n` times the base, and one more for each extra entry left.
  new_segments-capacity :
      (m c index n : ℕ)
      → total_capacity (new_segments {K = K} {V = V} m c index n)
        ≡ n * (m / c) + min n ((m % c) - index)
  unfolding new_segments
  new_segments-capacity m c index zero = grind arith
  new_segments-capacity m c index (suc n) = grind (arith, new_segments-capacity m c (index + 1) n)

  pub total_capacity-new_segments :
      (m c : ℕ) → 0 < c → total_capacity (new_segments {K = K} {V = V} m c 0 c) ≡ m
  total_capacity-new_segments m c p =
      new_segments-capacity m c 0 c ∙ omega (arith, div-add-mod m c, mod-lt m p)

  length-new_segments : (m c index n : ℕ) → length (new_segments {K = K} {V = V} m c index n) ≡ n
  unfolding new_segments
  length-new_segments m c index zero = refl
  length-new_segments m c index (suc n) = ap suc (length-new_segments m c (index + 1) n)

  -- For a positive number of segments, a new storage has that many, with the mask of that number,
  -- and the capacities of its segments sum to the capacity that was asked for.
  new_storage_with_segments-capacity :
      (m c : ℕ)
      → 0 < c
      → (s : Storage K V) × (new_storage_with_segments m c ≡ ok s)
        × (length s.segments ≡ c)
        × (total_capacity s.segments ≡ m)
        × (s.mask ≡ segment_mask c)
        × (s.max_entries ≡ m)
  unfolding new_storage_with_segments
  new_storage_with_segments-capacity m c p = (
    record { segments = new_segments m c 0 c; mask = segment_mask c; max_entries = m },
    ground (arith, p),
    length-new_segments m c 0 c,
    total_capacity-new_segments m c p,
    refl,
    refl,
  )
