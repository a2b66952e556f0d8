-- ===== src/OpStream/Sink.antt =====
-- The in-memory sink of src/opstream/sink.rs: what it accepts and what it gives back.
pub mod Order
pub mod Sorted
use fuaran_rs.Prelude.{
  ℕ, ◌+◌, Bool, true, false, ◌&&◌, List, [], ◌∷◌, ◌++◌, max, leb, ◌=?◌, if◌then◌else◌, any, filter,
}
use fuaran_rs.Prelude.Outcome.{Result, ok, err, ◌>>=◌, ◌>>◌, reject_if}
use fuaran_rs.Tree.{Wire}
use fuaran_rs.OpStream.Chain.{Spine, OpRecord}

-- `Io` and `Parse` are the file sink's.
pub data SinkError : Type 0 where
  duplicate_sequence : ℕ → SinkError

module _ {W : Wire} {S : Spine W} where
  -- `sort_by_key` is stable: a record goes before those with its own sequence that stand after it.
  unfoldable pub insert_by_sequence : OpRecord S → List (OpRecord S) → List (OpRecord S)
  insert_by_sequence r [] = r ∷ []
  insert_by_sequence r (x ∷ xs) =
      let rest = insert_by_sequence r xs in
      if leb r.sequence x.sequence then r ∷ x ∷ xs else x ∷ rest

  unfoldable pub sort_by_sequence : List (OpRecord S) → List (OpRecord S)
  unfolding insert_by_sequence
  sort_by_sequence [] = []
  sort_by_sequence (r ∷ rs) = insert_by_sequence r (sort_by_sequence rs)

  abbrev pub within : ℕ → ℕ → OpRecord S → Bool
  within from to r = leb from r.sequence && leb r.sequence to

  unfoldable pub in_range : ℕ → ℕ → List (OpRecord S) → List (OpRecord S)
  unfolding sort_by_sequence
  in_range from to records = sort_by_sequence (filter (within from to) records)

  unfoldable pub latest : List (OpRecord S) → ℕ
  latest [] = 0
  latest (r ∷ rs) = max r.sequence (latest rs)

  -- `InMemorySink::append`
  unfoldable pub store : OpRecord S → List (OpRecord S) → Result SinkError (List (OpRecord S))
  store r records = do
    reject_if (any (λ q. q.sequence =? r.sequence) records) (duplicate_sequence r.sequence)
    ok (records ++ (r ∷ []))
