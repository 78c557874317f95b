-- ===== src/Worker/Around.antt =====
-- The first pass of `cleanupSegments` of cleanup.go goes through every segment once around.
use pacecache.Prelude.{
  ℕ, zero, suc, ◌+◌, ◌-◌, ◌%◌, ◌≤◌, ◌<◌, ◌≡◌, sym, ap, ◌∙◌, subst, true, has, arith, dec_le,
  ==_refl,
}
use native.Mathlib.Nat.{mod-lt, mod-add-mod, mod-eq_of_lt, add-mod_right}
use pacecache.Worker.{around}

around-has :
    (count start offset n o : ℕ)
    → offset ≤ o
    → o < offset + n
    → has ((start + o) % count) (around count start offset n) ≡ true
unfolding around
around-has count start offset zero o le lt = absurd (omega arith)
around-has count start offset (suc n) o le lt = elim (dec_le o offset) [
  | yes first ↦
      let same : offset ≡ o = omega arith in
      subst (λ z. has ((start + o) % count) (around count start z (suc n)) ≡ true) (sym same)
        (ground (arith, ==_refl ((start + o) % count)))
  | no later ↦ ground (arith, around-has count start (offset + 1) n o (omega arith) (omega arith))
]

-- How far a segment is from the start.
distance : (count start i : ℕ) → i < count → (o : ℕ) × (o < count) × ((start + o) % count ≡ i)
distance count start i lt = elim (dec_le (start % count) i) [
  | yes before ↦ (
    i - start % count,
    omega arith,
    sym (mod-add-mod start count (i - start % count))
        ∙ ap (λ z. z % count) (omega arith)
        ∙ mod-eq_of_lt lt,
  )
  | no after ↦ (
    i + count - start % count,
    omega (arith, mod-lt start {m = count} (omega arith)),
    sym (mod-add-mod start count (i + count - start % count))
        ∙ ap (λ z. z % count) (omega (arith, mod-lt start {m = count} (omega arith)))
        ∙ add-mod_right i count
        ∙ mod-eq_of_lt lt,
  )
]

pub around-all : (count start i : ℕ) → i < count → has i (around count start 0 count) ≡ true
around-all count start i lt =
    let (o, near, at) = distance count start i lt in
    subst (λ z. has z (around count start 0 count) ≡ true) at
      (around-has count start 0 count o (omega arith) (omega arith))

pub around-within :
    (count start offset n i : ℕ)
    → 0 < count
    → has i (around count start offset n) ≡ true
    → i < count
unfolding around
around-within count start offset zero i some_segment h = ground arith
around-within count start offset (suc n) i some_segment h = ground (
  arith,
  mod-lt (start + offset) {m = count} some_segment,
  around-within count start (offset + 1) n i some_segment,
)
