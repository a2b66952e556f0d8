-- ===== src/OpStream/Replay/Delivery.antt =====
-- A verified stream that reached a sink in any order replays as the stream itself.
use fuaran_rs.Prelude.{
  ℕ, ◌+◌, ◌≤◌, ◌<◌, max, String, ◌≡◌, refl, sym, ap, ◌∙◌, true, List, [], ◌∷◌, arith, length, leb,
  Bool-cases, inl, inr, ◌=?◌,
}
use fuaran_rs.Prelude.Outcome.{ok}
use fuaran_rs.Tree.{Wire, Node}
use fuaran_rs.Ops.Apply.{Tables}
use fuaran_rs.OpStream.Chain.{Spine, OpRecord, verify_chain, genesis_previous_hash}
use fuaran_rs.OpStream.Chain.Verify.{IsChained, verify_chain-IsChained}
use fuaran_rs.OpStream.Sink.{insert_by_sequence, in_range, within, latest, sort_by_sequence}
use fuaran_rs.OpStream.Sink.Order.{held, IsKeyed, Rearranged, in_range-cons, in_range-Rearranged}
use fuaran_rs.OpStream.Replay.{replay, replay_stream}

module _ {W : Wire} {S : Spine W} where
  latest-Rearranged : {xs ys : List (OpRecord S)} → Rearranged xs ys → latest xs ≡ latest ys
  unfolding latest
  latest-Rearranged Rearranged.none_left = refl
  latest-Rearranged (Rearranged.keep x p) = ap (λ m. max x.sequence m) (latest-Rearranged p)
  latest-Rearranged (Rearranged.swap x y xs) = omega arith
  latest-Rearranged (Rearranged.both p q) = latest-Rearranged p ∙ latest-Rearranged q

  not_before :
      (n m : ℕ) (p : String) (rs : List (OpRecord S)) → IsChained n p rs → m < n → held m rs ≡ 0
  not_before n m p [] c l = refl
  not_before n m p (r ∷ rs) c l =
      let q = c.0.in_order in ground (arith, not_before (n + 1) m r.hash rs c.1 (omega arith))

  IsChained-IsKeyed : (n : ℕ) (p : String) (rs : List (OpRecord S)) → IsChained n p rs → IsKeyed rs
  IsChained-IsKeyed n p [] c m = omega arith
  IsChained-IsKeyed n p (r ∷ rs) c m =
      let q = c.0.in_order in
      let k = IsChained-IsKeyed (n + 1) r.hash rs c.1 m in
      elim (Bool-cases (r.sequence =? m)) [
        | inl e ↦
            let here : r.sequence ≡ m = ground arith in
            rw e (omega (arith, not_before (n + 1) m r.hash rs c.1 (omega arith)))
        | inr e ↦ rw e (omega arith)
      ]

  IsChained-latest :
      (n : ℕ) (p : String) (r : OpRecord S) (rs : List (OpRecord S))
      → IsChained n p (r ∷ rs)
      → n + length rs ≤ latest (r ∷ rs)
  unfolding latest
  IsChained-latest n p r [] c = let q = c.0.in_order in omega arith
  IsChained-latest n p r (x ∷ xs) c =
      let ih = IsChained-latest (n + 1) r.hash x xs c.1 in omega arith

  insert-first :
      (n : ℕ) (p : String) (r : OpRecord S) (rs : List (OpRecord S))
      → IsChained n p (r ∷ rs)
      → insert_by_sequence r rs ≡ r ∷ rs
  unfolding insert_by_sequence
  insert-first n p r [] c = refl
  insert-first n p r (x ∷ xs) c =
      let q = c.0.in_order in
      let q' = c.1.0.in_order in
      let l : leb r.sequence x.sequence ≡ true = ground arith in rw l refl

  in_range-IsChained :
      (from to n : ℕ) (p : String) (rs : List (OpRecord S))
      → IsChained n p rs
      → from ≤ n
      → n + length rs ≤ to + 1
      → in_range from to rs ≡ rs
  unfolding in_range sort_by_sequence
  in_range-IsChained from to n p [] c l u = refl
  in_range-IsChained from to n p (r ∷ rs) c l u =
      let q = c.0.in_order in
      let w : within from to r ≡ true = ground arith in
      let ih = in_range-IsChained from to (n + 1) r.hash rs c.1 (omega arith) (omega arith) in
      rw (in_range-cons from to r rs, w, ih) (insert-first n p r rs c)

  whole :
      (rs : List (OpRecord S))
      → IsChained 1 genesis_previous_hash rs
      → in_range 1 (latest rs) rs ≡ rs
  unfolding in_range sort_by_sequence
  whole [] c = refl
  whole (r ∷ rs) c =
      let l = IsChained-latest 1 genesis_previous_hash r rs c in
      in_range-IsChained 1 (latest (r ∷ rs)) 1 genesis_previous_hash (r ∷ rs) c (omega arith)
        (omega arith)

  -- A sink that holds the records of a verified stream, in whatever order they arrived, replays from
  -- sequence 1 to its latest as the stream does in its own order.
  pub replay_stream-verified :
      (T : Tables W) (t : Node W) (records stored : List (OpRecord S))
      → verify_chain records ≡ ok tt
      → Rearranged records stored
      → replay_stream T stored t 1 0 ≡ replay T t records
  unfolding replay_stream
  replay_stream-verified T t records stored v p =
      let c = (verify_chain-IsChained records).0 v in
      let k = IsChained-IsKeyed 1 genesis_previous_hash records c in
      let same : in_range 1 (latest stored) stored ≡ records =
        rw (sym (latest-Rearranged p))
          (sym (in_range-Rearranged 1 (latest records) k p) ∙ whole records c) in
      ap (λ rs. replay T t rs) same
