-- ===== src/Ops/Batch.antt =====
-- A batch is its ops in order, and stops at the first that fails.
use fuaran_rs.Prelude.{ℕ, ◌+◌, ◌≡◌, sym, ap, ◌∙◌, inl, inr, some, arith}
use fuaran_rs.Prelude.Outcome.{Result-cases, err-injective}
use fuaran_rs.Tree.{Wire}
use fuaran_rs.Ops.{ApplyError, ok, err, TreeOp, batch, Ops, done, then_op, batch_aborted}
use fuaran_rs.Ops.Apply.{Tables, apply_one, apply_batch, State}

-- `FirstFails ops k s`: from the state `s` the first `k` ops apply in turn, and the next does not.
pub data FirstFails {W : Wire} (T : Tables W) : Ops W → ℕ → State T → Type 0 where
  fails_here :
      (op : TreeOp W) (ops : Ops W) (s : State T) (e : ApplyError)
      → apply_one T op s ≡ err e
      → FirstFails T (then_op op ops) 0 s
  fails_later :
      (op : TreeOp W) (ops : Ops W) (k : ℕ) (s s' : State T)
      → apply_one T op s ≡ ok s'
      → FirstFails T ops k s'
      → FirstFails T (then_op op ops) (k + 1) s

abbrev pub aborted_at : ℕ → ApplyError
aborted_at k = record { code = batch_aborted; batch_index = some k }

pub record Aborted {W : Wire} (T : Tables W) (ops : Ops W) (s : State T) (e : ApplyError)
    : Type 0 where
  pub index : ℕ
  pub error : e ≡ aborted_at index
  pub first : FirstFails T ops index s

module _ {W : Wire} (T : Tables W) where
  record AbortedFrom (i : ℕ) (ops : Ops W) (s : State T) (e : ApplyError) : Type 0 where
    at : ℕ
    error_at : e ≡ aborted_at (i + at)
    first_at : FirstFails T ops at s

  batch-AbortedFrom :
      (i : ℕ) (ops : Ops W) (s : State T) (e : ApplyError)
      → apply_batch T ops i s ≡ err e
      → AbortedFrom i ops s e
  unfolding apply_batch
  batch-AbortedFrom i done s e h = cc
  batch-AbortedFrom i (then_op op ops) s e h = elim (Result-cases (apply_one T op s)) [
    | inr (d, a) ↦ record {
      at = 0;
      error_at = sym (err-injective (rw a at h)) ∙ ap aborted_at (omega arith);
      first_at = fails_here op ops s d a;
    }
    | inl (s', a) ↦
        let r = batch-AbortedFrom (i + 1) ops s' e (rw a at h) in
        record {
          at = r.at + 1;
          error_at = r.error_at ∙ ap aborted_at (omega arith);
          first_at = fails_later op ops r.at s s' a r.first_at;
        }
  ]

  -- A batch that fails names the first op that does not apply to what the ops before it give: the error
  -- is `BatchAborted` with that op's index, counted from 0.
  pub batch-Aborted :
      (ops : Ops W) (s : State T) (e : ApplyError)
      → apply_one T (batch ops) s ≡ err e
      → Aborted T ops s e
  unfolding apply_one
  batch-Aborted ops s e h =
      let r = batch-AbortedFrom 0 ops s e h in
      record { index = r.at; error = r.error_at ∙ ap aborted_at (omega arith); first = r.first_at }

  aborts_from :
      (i k : ℕ) (ops : Ops W) (s : State T)
      → FirstFails T ops k s
      → apply_batch T ops i s ≡ err (aborted_at (i + k))
  unfolding apply_batch
  aborts_from i _ _ _ (fails_here op ops s e a) = rw a (ap (λ j. err (aborted_at j)) (omega arith))
  aborts_from i _ _ _ (fails_later op ops k s s' a f) =
      rw a (aborts_from (i + 1) k ops s' f ∙ ap (λ j. err (aborted_at j)) (omega arith))

  -- Where the first `k` ops of a batch apply in turn and the next does not, the batch fails with
  -- `BatchAborted` at the index `k`, whatever comes after.
  pub FirstFails-batch :
      (ops : Ops W) (k : ℕ) (s : State T)
      → FirstFails T ops k s
      → apply_one T (batch ops) s ≡ err (aborted_at k)
  unfolding apply_one
  FirstFails-batch ops k s f = aborts_from 0 k ops s f ∙ ap (λ j. err (aborted_at j)) (omega arith)
