-- ===== src/Expiration/Heap.antt =====
-- `expirationBucketHeap` of expiration.go under container/heap: a slice of buckets ordered by id, in
-- which each bucket knows its position. A bucket is an address; `index` is the field `heapIndex` of
-- the buckets, and `none` its -1.
pub mod Order
pub mod Sift
pub mod Edits
pub mod Fix
use pacecache.Prelude.{
  ℕ, zero, suc, ◌+◌, ◌-◌, ◌*◌, ◌/◌, Bool, true, false, Option, none, some, ltb, leb, ◌==◌, ◌!=◌,
  ◌&&◌, ◌||◌, not, if◌then◌else◌,
}
use pacecache.Chain.{write}

abbrev pub BucketPtr : Type 0
BucketPtr = ℕ

-- What `slots` says at `len` and above is not part of the slice.
pub record Heap : Type 0 where
  pub len : ℕ
  pub slots : ℕ → BucketPtr
  pub index : BucketPtr → Option ℕ

unfoldable pub swap : Heap → (left right : ℕ) → Heap
swap h left right =
    let h1 = record h { slots = write (write h.slots left (h.slots right)) right (h.slots left) } in
    let h2 = record h1 { index = write h1.index (h1.slots left) (some left) } in
    record h2 { index = write h2.index (h2.slots right) (some right) }

-- The method `Push` of the slice.
unfoldable pub append : Heap → BucketPtr → Heap
append h bucket = record {
  len = suc h.len;
  slots = write h.slots h.len bucket;
  index = write h.index bucket (some h.len);
}

-- The method `Pop` of the slice.
unfoldable pub chop : Heap → Heap
chop h = let last = h.len - 1 in record h { len = last; index = write h.index (h.slots last) none }

module _ (ids : BucketPtr → ℕ) where
  abbrev pub less : Heap → (left right : ℕ) → Bool
  less h left right = ltb (ids (h.slots left)) (ids (h.slots right))

  -- `up`; a position falls at each step, so it is fuel enough.
  unfoldable pub up : (fuel j : ℕ) → Heap → Heap
  up zero j h = h
  up (suc fuel) j h =
      let i = (j - 1) / 2 in
      elim ((i == j) || not (less h j i)) [ true ↦ h | false ↦ up fuel i (swap h i j) ]

  -- The smaller child of `i` among the first `n` slots.
  abbrev pub child : Heap → (i n : ℕ) → ℕ
  child h i n =
      let left = 2 * i + 1 in
      let right = left + 1 in if ltb right n && less h right left then right else left

  -- `down` up to the position where it stops; a position grows at each step, so `n` is fuel enough.
  unfoldable pub down : (fuel i n : ℕ) → Heap → Heap × ℕ
  down zero i n h = (h, i)
  down (suc fuel) i n h =
      let j = child h i n in
      elim (leb n (2 * i + 1) || not (less h j i)) [
        | true ↦ (h, i)
        | false ↦ down fuel j n (swap h i j)
      ]

  -- `if !down(h, i, n) { up(h, i) }`
  unfoldable pub settle : (i n : ℕ) → Heap → Heap
  settle i n h = let (h', stop) = down n i n h in if ltb i stop then h' else up (suc i) i h'

  unfoldable pub push : Heap → BucketPtr → Heap
  push h bucket = let h' = append h bucket in up h'.len (h'.len - 1) h'

  unfoldable pub pop : Heap → Heap
  pop h = let n = h.len - 1 in chop (down n 0 n (swap h 0 n)).0

  unfoldable pub remove : Heap → (i : ℕ) → Heap
  remove h i = let n = h.len - 1 in chop (if n != i then settle i n (swap h i n) else h)

  unfoldable pub fix : Heap → (i : ℕ) → Heap
  fix h i = settle i h.len h
