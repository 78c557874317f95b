-- ===== src/Worker/Scratch.antt =====
-- The second loop of `cleanupSegments` of cleanup.go reuses one array: `next := pending[:0]` appends
-- to the start of the list that the loop is reading.
use pacecache.Prelude.{
  ℕ, zero, suc, ◌+◌, ◌-◌, ◌≤◌, ◌<◌, ◌≡◌, min, refl, sym, ap, ◌∙◌, Bool, true, false, ◌||◌,
  Bool-cases, inl, inr, ◌⊎◌, none, some, List, [], ◌∷◌, ◌++◌, Result, ok, panic, ◌>>=◌, ◌==◌,
  length, get_elem?, set, get_elem?-set, arith,
}
use pacecache.Storage.{Storage}
use pacecache.Worker.{Pass, stopped, passed, also_pending, cleanup_expired_at, cleanup_listed}

-- `scratch[:n]`
abbrev pub first : ℕ → List ℕ → List ℕ
first zero xs = []
first (suc n) [] = []
first (suc n) (x ∷ xs) = x ∷ first n xs

module _ {K V : Type 0} (dec : Discrete K) (exceeded : ℕ → Bool) (cutoff : ℕ) where
  -- `n` segments are left to read from `reader` on; `writer` of the segments that were read have
  -- more.
  unfoldable pub cleanup_scratch :
      (n batch_size checks remaining reader writer : ℕ)
      → (scratch : List ℕ) → Storage K V
      → Result (Storage K V × Pass)
  cleanup_scratch zero batch_size checks remaining reader writer scratch s =
      ok (s, passed checks remaining (first writer scratch))
  cleanup_scratch (suc n) batch_size checks remaining reader writer scratch s =
      elim (get_elem? scratch reader) [
        | none ↦ panic
        | some index ↦ elim ((remaining == 0) || exceeded checks) [
          | true ↦ ok (s, stopped index)
          | false ↦ do
            (t, result) ← cleanup_expired_at dec cutoff index (min batch_size remaining) s
            elim result.1 [
              | true ↦
                  cleanup_scratch n batch_size (checks + 1) (remaining - result.0) (reader + 1)
                    (writer + 1) (set scratch writer index) t
              | false ↦
                  cleanup_scratch n batch_size (checks + 1) (remaining - result.0) (reader + 1)
                    writer scratch t
            ]
        ]
      ]

-- What was written before a pass comes first.
abbrev pub after : List ℕ → Pass → Pass
after xs (stopped i) = stopped i
after xs (passed checks remaining pending) = passed checks remaining (xs ++ pending)

first-set :
    (n : ℕ) (xs : List ℕ) (x : ℕ)
    → n < length xs
    → first (suc n) (set xs n x) ≡ first n xs ++ x ∷ []
first-set n [] x lt = absurd (omega arith)
first-set zero (y ∷ xs) x lt = refl
first-set (suc n) (y ∷ xs) x lt = ap (λ l. y ∷ l) (first-set n xs x (omega arith))

first-write :
    (n : ℕ) (xs : List ℕ) (x : ℕ)
    → n < length xs
    → first (n + 1) (set xs n x) ≡ first n xs ++ x ∷ []
first-write n xs x lt =
    let next : n + 1 ≡ suc n = omega arith in
    ap (λ k. first k (set xs n x)) next ∙ first-set n xs x lt

append_nil : (xs : List ℕ) → xs ++ [] ≡ xs
append_nil [] = refl
append_nil (x ∷ xs) = ap (λ l. x ∷ l) (append_nil xs)

Result-cases : {A : Type 0} (r : Result A) → (r ≡ panic) ⊎ ((a : A) × (r ≡ ok a))
Result-cases panic = inl refl
Result-cases (ok a) = inr (a, refl)

append_assoc : (xs : List ℕ) (x : ℕ) (ys : List ℕ) → (xs ++ x ∷ []) ++ ys ≡ xs ++ x ∷ ys
append_assoc [] x ys = refl
append_assoc (z ∷ xs) x ys = ap (λ l. z ∷ l) (append_assoc xs x ys)

-- The numbers from `reader` on are these.
abbrev pub Reads : (scratch : List ℕ) → (reader : ℕ) → List ℕ → Type 0
Reads scratch reader [] = Unit {0}
Reads scratch reader (x ∷ xs) = (get_elem? scratch reader ≡ some x) × Reads scratch (reader + 1) xs

-- A write behind the reader is not read.
Reads-set :
    (scratch : List ℕ) (reader writer x : ℕ) (xs : List ℕ)
    → writer < reader
    → writer < length scratch
    → Reads scratch reader xs
    → Reads (set scratch writer x) reader xs
Reads-set scratch reader writer x [] behind lt r = tt
Reads-set scratch reader writer x (y ∷ xs) behind lt (e, r) = (
  ground (arith, get_elem?-set scratch writer reader x lt),
  Reads-set scratch (reader + 1) writer x xs (omega arith) lt r,
)

get_elem?-lt : (xs : List ℕ) (i x : ℕ) → get_elem? xs i ≡ some x → i < length xs
get_elem?-lt [] i x e = ground arith
get_elem?-lt (y ∷ xs) zero x e = omega arith
get_elem?-lt (y ∷ xs) (suc i) x e = omega (arith, get_elem?-lt xs i x e)

module _ {K V : Type 0} where
  abbrev pub then_after : List ℕ → Result (Storage K V × Pass) → Result (Storage K V × Pass)
  then_after xs r = do p ← r; ok (p.0, after xs p.1)

module _ {K V : Type 0} (dec : Discrete K) (exceeded : ℕ → Bool) (cutoff : ℕ) where
  silent :
      (ys : List ℕ) (x : ℕ) (r : Result (Storage K V × Pass))
      → then_after ys r ≡ then_after ys (do p ← r; ok (p.0, also_pending x false p.1))
  silent ys x panic = refl
  silent ys x (ok (t, stopped i)) = refl
  silent ys x (ok (t, passed c m pending)) = refl

  written :
      (ys : List ℕ) (x : ℕ) (r : Result (Storage K V × Pass))
      → then_after (ys ++ x ∷ []) r ≡ then_after ys (do p ← r; ok (p.0, also_pending x true p.1))
  written ys x panic = refl
  written ys x (ok (t, stopped i)) = refl
  written ys x (ok (t, passed c m pending)) =
      ap (λ l. ok (t, passed c m l)) (append_assoc ys x pending)

  -- A pass over the segments that an array holds from a position on, which writes the segments that
  -- have more into the same array at an earlier position or the same one, does what a pass over
  -- them as a list does, and the written part of the array is what was written before followed by
  -- the pending segments of that pass.
  pub scratch-listed :
      (xs : List ℕ) (batch_size checks remaining reader writer : ℕ) (scratch : List ℕ)
      (s : Storage K V)
      → Reads scratch reader xs
      → writer ≤ reader
      → cleanup_scratch dec exceeded cutoff
          (length xs)
          batch_size
          checks
          remaining
          reader
          writer
          scratch
          s
        ≡ then_after
            (first writer scratch)
            (cleanup_listed dec exceeded cutoff batch_size checks remaining xs s)
  unfolding cleanup_scratch cleanup_listed
  scratch-listed [] batch_size checks remaining reader writer scratch s r le =
      ap (λ l. ok (s, passed checks remaining l)) (sym (append_nil (first writer scratch)))
  scratch-listed (x ∷ xs) batch_size checks remaining reader writer scratch s (e, r) le =
      elim (Bool-cases ((remaining == 0) || exceeded checks)) [
        | inl over ↦ rw (e, over, cleanup_scratch, cleanup_listed) refl
        | inr go ↦
            elim (Result-cases (cleanup_expired_at dec cutoff x (min batch_size remaining) s)) [
              | inl crash ↦ rw (e, go, crash, cleanup_scratch, cleanup_listed) refl
              | inr ((t, (n, more)), b) ↦ elim (Bool-cases more) [
                | inr last ↦
                    rw (e, go, b, last, cleanup_scratch, cleanup_listed)
                      (scratch-listed xs batch_size (checks + 1) (remaining - n) (reader + 1) writer
                          scratch t r (omega arith)
                        ∙ silent (first writer scratch) x (
                            cleanup_listed dec exceeded cutoff batch_size (checks + 1)
                              (remaining - n) xs t))
                | inl again ↦
                    rw (e, go, b, again, cleanup_scratch, cleanup_listed)
                      (scratch-listed xs batch_size (checks + 1) (remaining - n) (reader + 1)
                          (writer + 1) (set scratch writer x) t
                          (Reads-set scratch (reader + 1) writer x xs (omega arith)
                            (omega (arith, get_elem?-lt scratch reader x e)) r)
                          (omega arith)
                        ∙ ap
                            (λ l. then_after l (
                              cleanup_listed dec exceeded cutoff batch_size (checks + 1)
                                (remaining - n) xs t))
                            (first-write writer scratch x
                              (omega (arith, get_elem?-lt scratch reader x e)))
                        ∙ written (first writer scratch) x (
                            cleanup_listed dec exceeded cutoff batch_size (checks + 1)
                              (remaining - n) xs t))
              ]
            ]
      ]
