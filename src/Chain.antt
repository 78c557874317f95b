-- ===== src/Chain.antt =====
-- Doubly linked lists, as the pointer code of segment.go (the LRU list) and of expiration.go (the
-- list of a bucket) keeps them: two functions from addresses to addresses, `next` and `previous`.
-- Address 0 is nil. The head and the tail of a list are read as the links of nil, so that a list
-- is a ring through nil and the code's nil tests choose between two cells of one function.
pub mod Edit
use pacecache.Prelude.{
  ℕ, refl, ◌≡◌, ◌≢◌, inl, inr, Bool-cases, fun_ext, subst, List, [], ◌∷◌, arith, ◌==◌,
  if◌then◌else◌, ◌∈◌, ◌∉◌, Distinct,
}

abbrev pub Ptr : Type 0
Ptr = ℕ

abbrev pub nil : Ptr
nil = 0

-- A write to one cell.
abbrev pub write {ℓ} : {A : Type ℓ} → (Ptr → A) → Ptr → A → Ptr → A
write f p v q = if q == p then v else f q

-- The second of two writes to a cell counts.
pub write-write {ℓ} :
    {A : Type ℓ} (f : Ptr → A) (p : Ptr) (a b : A) → write f p b ≡ write (write f p a) p b
write-write f p a b = fun_ext (λ q. ground arith)

-- A write of what a cell holds changes nothing.
pub write_self {ℓ} : {A : Type ℓ} (f : Ptr → A) (p : Ptr) (a : A) → f p ≡ a → write f p a ≡ f
write_self f p a e = fun_ext (λ q. ground arith)

-- From `a` the two functions lead through `xs` to `b` and back.
abbrev pub Chain : (nx pv : Ptr → Ptr) → Ptr → List Ptr → Ptr → Type 0
Chain nx pv a [] b = (nx a ≡ b) × (pv b ≡ a)
Chain nx pv a (x ∷ xs) b = (nx a ≡ x) × (pv x ≡ a) × Chain nx pv x xs b

-- A list of distinct cells that begins and ends at nil.
pub record Ring (nx pv : Ptr → Ptr) (xs : List Ptr) : Type 0 where
  pub chain : Chain nx pv nil xs nil
  pub proper : nil ∉ xs
  pub distinct : Distinct xs

-- A chain reads the forward links of all but its end, and the backward links of all but its start.
pub Chain-frame :
    {nx pv : Ptr → Ptr} (nx' pv' : Ptr → Ptr) (a : Ptr) (xs : List Ptr) (b : Ptr)
    → Chain nx pv a xs b
    → ((p : Ptr) → p ∈ (a ∷ xs) → nx' p ≡ nx p)
    → ((p : Ptr) → p ∈ (b ∷ xs) → pv' p ≡ pv p)
    → Chain nx' pv' a xs b
Chain-frame nx' pv' a [] b c f g = ground (arith, f a, g b)
Chain-frame nx' pv' a (x ∷ xs) b c f g = (
  ground (arith, f a),
  ground (arith, g x),
  Chain-frame nx' pv' x xs b c.2 (λ p h. f p (ground arith)) (λ p h. g p (ground arith)),
)

abbrev pub last_or : Ptr → List Ptr → Ptr
last_or a [] = a
last_or a (x ∷ xs) = last_or x xs

module _ (nx pv : Ptr → Ptr) where
  pub previous-mem :
      (x a : Ptr) (xs : List Ptr) (b : Ptr) → Chain nx pv a xs b → x ∈ xs → pv x ∈ (a ∷ xs)
  previous-mem x a [] b c h = ground arith
  previous-mem x a (y ∷ xs) b c h = ground (arith, previous-mem x y xs b c.2)

  pub next-mem :
      (x a : Ptr) (xs : List Ptr) (b : Ptr) → Chain nx pv a xs b → x ∈ xs → nx x ∈ (b ∷ xs)
  next-mem x a [] b c h = ground arith
  next-mem x a (y ∷ []) b c h = ground arith
  next-mem x a (y ∷ z ∷ xs) b c h = ground (arith, next-mem x y (z ∷ xs) b c.2)

  -- The last cell of a chain is one of it, or its start.
  pub last-mem : (a : Ptr) (xs : List Ptr) (b : Ptr) → Chain nx pv a xs b → pv b ∈ (a ∷ xs)
  last-mem a [] b c = ground arith
  last-mem a (y ∷ xs) b c = ground (arith, last-mem y xs b c.2)

  pub last-inside : (a : Ptr) (xs : List Ptr) (b : Ptr) → Chain nx pv a xs b → xs ≢ [] → pv b ∈ xs
  last-inside a [] b c h = absurd (h refl)
  last-inside a (y ∷ xs) b c h = last-mem y xs b c.2

  pub last-eq : (a : Ptr) (xs : List Ptr) (b : Ptr) → Chain nx pv a xs b → pv b ≡ last_or a xs
  last-eq a [] b c = c.1
  last-eq a (y ∷ xs) b c = last-eq y xs b c.2

  -- The first cell of a chain is one of it, or its end.
  pub first-mem : (a : Ptr) (xs : List Ptr) (b : Ptr) → Chain nx pv a xs b → nx a ∈ (b ∷ xs)
  first-mem a [] b c = ground arith
  first-mem a (y ∷ xs) b c = ground arith

  -- No cell precedes itself.
  pub previous-ne :
      (x a : Ptr) (xs : List Ptr) (b : Ptr)
      → Chain nx pv a xs b
      → a ∉ xs
      → Distinct xs
      → x ∈ xs
      → pv x ≢ x
  previous-ne x a [] b c out d h = ground arith
  previous-ne x a (y ∷ xs) b c out d h = elim (Bool-cases (x == y)) [
    | inl e ↦ ground arith
    | inr e ↦ previous-ne x y xs b c.2 d.0 d.1 (ground arith)
  ]

  -- A ring is what the two functions say at each cell.
  pub Ring-ext :
      (nx' pv' : Ptr → Ptr) (xs : List Ptr)
      → Ring nx pv xs
      → ((p : Ptr) → nx p ≡ nx' p)
      → ((p : Ptr) → pv p ≡ pv' p)
      → Ring nx' pv' xs
  Ring-ext nx' pv' xs r f g =
      subst (λ t. Ring nx' t xs) (fun_ext g) (subst (λ t. Ring t pv xs) (fun_ext f) r)
