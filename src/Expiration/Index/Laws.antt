-- ===== src/Expiration/Index/Laws.antt =====
-- The index of expiration.go keeps what its callers rely on.
use pacecache.Prelude.{
  ℕ, zero, suc, ◌≤◌, ◌<◌, ◌≡◌, ◌≢◌, ◌⊎◌, refl, sym, subst, inl, inr, true, false, Bool-cases, [],
  ok, arith, ◌==◌,
}
use pacecache.Chain.{Ptr, nil, write, write_self}
use pacecache.Expiration.{bucket_id, IndexLaws}
use pacecache.Expiration.Lists.Members.{no_lists-Holds}
use pacecache.Expiration.Index.{
  Index, index_ops, new_expiration_index, remove, update, reset, has_due_bucket, pop_root_entry,
}
use pacecache.Expiration.Index.Filed.{Filed}
use pacecache.Expiration.Index.Edits.{IsFiled, remove-Filed}
use pacecache.Expiration.Index.Update.{update-Filed}
use pacecache.Expiration.Index.Due.{not_due, popped}
use pacecache.Expiration.Index.Reset.{reset-Filed, reset-resolution}

-- An index with no resolution is off: it stays empty.
abbrev IsOff : Index → Type 0
IsOff s = (s.resolution_nanos ≡ 0) × (s.heap.len ≡ 0)

abbrev pub Files : Index → (Ptr → ℕ) → Type 0
Files s m = IsOff s ⊎ IsFiled s m

module _ (s : Index) (m : Ptr → ℕ) where
  update_off : (p : Ptr) (old d : ℕ) → IsOff s → update s p old d ≡ ok s
  unfolding update
  update_off p old d off = ground arith

  remove_off : (p : Ptr) (old : ℕ) → IsOff s → remove s p old ≡ ok s
  unfolding remove
  remove_off p old off = ground arith

  remove_none : (p : Ptr) → remove s p 0 ≡ ok s
  unfolding remove
  remove_none p = ground arith

  reset_off : IsOff s → reset s ≡ s
  unfolding reset
  reset_off off = ground arith

  due_off : (due : ℕ) → IsOff s → has_due_bucket s due ≡ false
  unfolding has_due_bucket
  due_off due off = ground arith

  update-Files :
      (p : Ptr) (old d : ℕ)
      → Files s m
      → p ≢ nil
      → m p ≡ old
      → (j : Index) × (update s p old d ≡ ok j)
        × Files j (write m p d)
        × (j.resolution_nanos ≡ s.resolution_nanos)
  update-Files p old d (inl off) proper e = (s, update_off p old d off, inl off, refl)
  update-Files p old d (inr (items, h)) proper e =
      let (j, eq, f, r) = update-Filed s m items h p d proper in
      (j, subst (λ t. update s p t d ≡ ok j) e eq, inr f, r)

  remove-Files :
      (p : Ptr) (old : ℕ)
      → Files s m
      → p ≢ nil
      → m p ≡ old
      → (j : Index) × (remove s p old ≡ ok j)
        × Files j (write m p 0)
        × (j.resolution_nanos ≡ s.resolution_nanos)
  remove-Files p old (inl off) proper e = (s, remove_off p old off, inl off, refl)
  remove-Files p old (inr (items, h)) proper e = elim (Bool-cases (m p == 0)) [
    | inl z ↦ (
      s,
      subst (λ t. remove s p t ≡ ok s) (ground arith) (remove_none p),
      inr (items, subst (λ f. Filed s f items) (sym (write_self m p 0 (ground arith))) h),
      refl,
    )
    | inr z ↦
        let (j, eq, f, r) = remove-Filed s m items h p (ground arith) in
        (j, subst (λ t. remove s p t ≡ ok j) e eq, inr f, r)
  ]

  reset-Files :
      Files s m → Files (reset s) (λ _. 0) × ((reset s).resolution_nanos ≡ s.resolution_nanos)
  reset-Files (inl off) = rw (reset_off off) (inl off, refl)
  reset-Files (inr (items, h)) =
      (inr ((λ _. []), reset-Filed s m items h), reset-resolution s m items h)

  pop-Files :
      (due : ℕ)
      → Files s m
      → has_due_bucket s due ≡ true
      → (p : Ptr) × (j : Index) × (pop_root_entry s ≡ ok (p, j))
        × (m p ≢ 0)
        × (bucket_id s.resolution_nanos (m p) ≤ due)
        × Files j (write m p 0)
        × (j.resolution_nanos ≡ s.resolution_nanos)
  pop-Files due (inl off) e = absurd (ground (arith, due_off due off))
  pop-Files due (inr (items, h)) e =
      let (p, j, eq, ne, le, f, r) = popped s m items h due e in (p, j, eq, ne, le, inr f, r)

  none_due :
      (due : ℕ)
      → Files s m
      → 0 < s.resolution_nanos
      → has_due_bucket s due ≡ false
      → (p : Ptr) → m p ≢ 0
      → due < bucket_id s.resolution_nanos (m p)
  none_due due (inl off) lt e p ne = absurd (omega arith)
  none_due due (inr (items, h)) lt e p ne = not_due s m items h due e p ne

create_resolution : (r : ℕ) → (new_expiration_index r).resolution_nanos ≡ r
unfolding new_expiration_index
create_resolution r = refl

-- A new index has no entry filed.
pub new-Filed : (r : ℕ) → 0 < r → Filed (new_expiration_index r) (λ _. 0) (λ _. [])
unfolding new_expiration_index
new-Filed r positive = record {
  resolution = positive;
  lists = no_lists-Holds;
  heap = record {
    placed = record { positions = λ i lt. ground arith; members = λ b i e. ground arith };
    ordered = λ i low high. ground arith;
  };
  mapped = λ b a. absurd (a refl);
  active = λ id b e. ground arith;
  filed = λ p b i. ground arith;
  found = λ p ne. absurd (ne refl);
  filled = λ b a. absurd (a refl);
  spares = λ b i. ground arith;
  spare_distinct = tt;
  unused = λ b le. (refl, refl);
}

create-Files : (r : ℕ) → Files (new_expiration_index r) (λ _. 0)
unfolding new_expiration_index
create-Files zero = inl (refl, refl)
create-Files (suc r) = inr ((λ _. []), new-Filed (suc r) (omega arith))

-- The index keeps, for each entry, the deadline under which it is filed: a new index has none, an
-- update, a removal, a reset and a pop never panic and change what is filed as they should, a pop
-- yields an entry of a due bucket, and an entry whose bucket is due makes the index say so.
pub index_laws : IndexLaws index_ops
index_laws = record {
  Files = Files;
  create_files = λ r. (create-Files r, create_resolution r);
  update_files = λ i m p old d. update-Files i m p old d;
  remove_files = λ i m p old. remove-Files i m p old;
  reset_files = λ i m. reset-Files i m;
  pop_files = λ i m due. pop-Files i m due;
  none_due = λ i m due. none_due i m due;
}
