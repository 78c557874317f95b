-- ===== src/Expiration/Heap/Order.antt =====
-- When a heap of buckets is well formed, and that an exchange of two slots keeps every bucket in
-- the heap and its position up to date.
use pacecache.Prelude.{
  ℕ, ◌-◌, ◌/◌, ◌≤◌, ◌<◌, ◌≡◌, ◌≢◌, ◌↔◌, refl, none, some, arith, ◌==◌, if◌then◌else◌,
}
use pacecache.Expiration.Heap.{BucketPtr, Heap, swap}

-- The slots and the positions agree. A bucket is in the heap if it has a position.
pub record Placed (h : Heap) : Type 0 where
  pub positions : (i : ℕ) → i < h.len → h.index (h.slots i) ≡ some i
  pub members : (b : BucketPtr) (i : ℕ) → h.index b ≡ some i → (i < h.len) × (h.slots i ≡ b)

-- The same buckets are in both heaps.
pub record SameBuckets (h g : Heap) : Type 0 where
  pub length : g.len ≡ h.len
  pub same : (b : BucketPtr) → (g.index b ≡ none) ↔ (h.index b ≡ none)

abbrev pub parent : ℕ → ℕ
parent i = (i - 1) / 2

-- No bucket among the first `n` is before its parent.
abbrev pub Ordered : (BucketPtr → ℕ) → Heap → ℕ → Type 0
Ordered ids h n = (i : ℕ) → 0 < i → i < n → ids (h.slots (parent i)) ≤ ids (h.slots i)

-- The ids along the slots after an exchange.
pub ids-swap :
    (ids : BucketPtr → ℕ) (h : Heap) (l r i : ℕ)
    → ids ((swap h l r).slots i)
      ≡ (if i == r then ids (h.slots l) else if i == l then ids (h.slots r) else ids (h.slots i))
unfolding swap
ids-swap ids h l r i = ground arith

pub slots-swap_ne : (h : Heap) (l r i : ℕ) → i ≢ l → i ≢ r → (swap h l r).slots i ≡ h.slots i
unfolding swap
slots-swap_ne h l r i nl nr = ground arith

module _ (h : Heap) (p : Placed h) (l r : ℕ) (lh : l < h.len) (rh : r < h.len) where
  pub swap-Placed : Placed (swap h l r)
  unfolding swap
  swap-Placed = record {
    positions = λ i lt. ground (arith, p.positions i lt, p.positions l lh, p.positions r rh);
    members = λ b i e. ground (arith, p.members b i, p.positions l lh, p.positions r rh);
  }

  pub swap-SameBuckets : SameBuckets h (swap h l r)
  unfolding swap
  swap-SameBuckets = record {
    length = refl;
    same = λ b. (
      λ e. ground (arith, p.positions l lh, p.positions r rh),
      λ e. ground (arith, p.positions l lh, p.positions r rh),
    );
  }
