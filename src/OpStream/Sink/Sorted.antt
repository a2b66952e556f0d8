-- ===== src/OpStream/Sink/Sorted.antt =====
-- What a sink gives back for a range: the records it holds in the range, in the order of their
-- sequences.
use fuaran_rs.Prelude.{
  ℕ, ◌≤◌, ◌&&◌, List, [], ◌∷◌, leb, if◌then◌else◌, arith, All, Bool-cases, inl, inr,
}
use fuaran_rs.Tree.{Wire}
use fuaran_rs.OpStream.Chain.{Spine, OpRecord}
use fuaran_rs.OpStream.Sink.{insert_by_sequence, sort_by_sequence, within, in_range}
use fuaran_rs.OpStream.Sink.Order.{Rearranged, none_left, keep, swap, both, in_range-cons}

same_order : {T : Type 0} (xs : List T) → Rearranged xs xs
same_order [] = none_left
same_order (x ∷ xs) = keep x (same_order xs)

module _ {W : Wire} {S : Spine W} where
  abbrev pub IsSorted : List (OpRecord S) → Type 0
  IsSorted [] = Unit
  IsSorted (r ∷ rs) = All (λ (q : OpRecord S). r.sequence ≤ q.sequence) rs × IsSorted rs

  abbrev AtLeast : ℕ → List (OpRecord S) → Type 0
  AtLeast n rs = All (λ (q : OpRecord S). n ≤ q.sequence) rs

  relax : (n m : ℕ) (rs : List (OpRecord S)) → n ≤ m → AtLeast m rs → AtLeast n rs
  relax n m [] h a = tt
  relax n m (r ∷ rs) h a = (let q = a.0 in omega arith, relax n m rs h a.1)

  insert-AtLeast :
      (n : ℕ) (r : OpRecord S) (xs : List (OpRecord S))
      → n ≤ r.sequence
      → AtLeast n xs
      → AtLeast n (insert_by_sequence r xs)
  unfolding insert_by_sequence
  insert-AtLeast n r [] h a = (h, tt)
  insert-AtLeast n r (x ∷ xs) h a = elim (Bool-cases (leb r.sequence x.sequence)) [
    | inl e ↦ rw e (h, a)
    | inr e ↦ rw e (a.0, insert-AtLeast n r xs h a.1)
  ]

  insert-IsSorted :
      (r : OpRecord S) (xs : List (OpRecord S)) → IsSorted xs → IsSorted (insert_by_sequence r xs)
  unfolding insert_by_sequence
  insert-IsSorted r [] s = (tt, tt)
  insert-IsSorted r (x ∷ xs) s = elim (Bool-cases (leb r.sequence x.sequence)) [
    | inl e ↦
        let h : r.sequence ≤ x.sequence = ground arith in
        rw e ((h, relax r.sequence x.sequence xs h s.0), s)
    | inr e ↦
        let h : x.sequence ≤ r.sequence = ground arith in
        rw e (insert-AtLeast x.sequence r xs h s.0, insert-IsSorted r xs s.1)
  ]

  insert-Rearranged :
      (r : OpRecord S) (xs : List (OpRecord S)) → Rearranged (r ∷ xs) (insert_by_sequence r xs)
  unfolding insert_by_sequence
  insert-Rearranged r [] = keep r none_left
  insert-Rearranged r (x ∷ xs) = elim (Bool-cases (leb r.sequence x.sequence)) [
    | inl e ↦ rw e (same_order (r ∷ x ∷ xs))
    | inr e ↦ rw e (both (swap r x xs) (keep x (insert-Rearranged r xs)))
  ]

  -- The records of the list with a sequence from `from` to `to`, as they stand.
  abbrev pub held_within : ℕ → ℕ → List (OpRecord S) → List (OpRecord S)
  held_within from to [] = []
  held_within from to (r ∷ rs) =
      if leb from r.sequence && leb r.sequence to
      then r ∷ held_within from to rs
      else held_within from to rs

  sorted : (from to : ℕ) (records : List (OpRecord S)) → IsSorted (in_range from to records)
  unfolding in_range sort_by_sequence
  sorted from to [] = tt
  sorted from to (r ∷ rs) = elim (Bool-cases (within from to r)) [
    | inl e ↦
        rw (in_range-cons from to r rs, e)
          (insert-IsSorted r (in_range from to rs) (sorted from to rs))
    | inr e ↦ rw (in_range-cons from to r rs, e) (sorted from to rs)
  ]

  given_back :
      (from to : ℕ) (records : List (OpRecord S))
      → Rearranged (held_within from to records) (in_range from to records)
  unfolding in_range sort_by_sequence
  given_back from to [] = none_left
  given_back from to (r ∷ rs) =
      let ih = given_back from to rs in
      elim (Bool-cases (within from to r)) [
        | inl e ↦
            rw (in_range-cons from to r rs, e)
              (both (keep r ih) (insert-Rearranged r (in_range from to rs)))
        | inr e ↦ rw (in_range-cons from to r rs, e) ih
      ]

  -- For a range of sequences a sink gives back, in the order of their sequences, exactly the records
  -- that it holds in the range, each whole and as many times as it is held.
  pub in_range-IsSorted :
      (from to : ℕ) (records : List (OpRecord S))
      → IsSorted (in_range from to records)
        × Rearranged (held_within from to records) (in_range from to records)
  in_range-IsSorted from to records = (sorted from to records, given_back from to records)
