-- ===== src/Placement/Whole.antt =====
-- The children that a reorder picks by their ids (src/ops/mod.rs, `ReorderChildren`), as whole nodes.
use fuaran_rs.Prelude.{
  ◌≤◌, ◌≡◌, refl, sym, ap, ◌∙◌, String, true, Bool-cases, inl, inr, ◌⊎◌, some, List, [], ◌∷◌, ◌++◌,
  ◌==◌, eq_refl, map, find, arith, subst,
}
use fuaran_rs.Prelude.Counts.{count}
use fuaran_rs.Tree.{Wire, Node, id_of}
use fuaran_rs.Ops.Structural.{pick}

abbrev rest_of : List String → List String
rest_of [] = []
rest_of (x ∷ xs) = xs

module _ {W : Wire} where
  abbrev In : Node W → List (Node W) → Type 0
  In y [] = ⊥
  In y (x ∷ xs) = (y ≡ x) ⊎ In y xs

  In-split : (y : Node W) (xs ys : List (Node W)) → In y (xs ++ ys) → In y xs ⊎ In y ys
  In-split y [] ys m = inr m
  In-split y (x ∷ xs) ys (inl e) = inl (inl e)
  In-split y (x ∷ xs) ys (inr m) = elim (In-split y xs ys m) [ inl k ↦ inl (inr k) | inr k ↦ inr k ]

  In-left : (y : Node W) (xs ys : List (Node W)) → In y xs → In y (xs ++ ys)
  In-left y [] ys m = absurd m
  In-left y (x ∷ xs) ys (inl e) = inl e
  In-left y (x ∷ xs) ys (inr m) = inr (In-left y xs ys m)

  In-right : (y : Node W) (xs ys : List (Node W)) → In y ys → In y (xs ++ ys)
  In-right y [] ys m = m
  In-right y (x ∷ xs) ys m = inr (In-right y xs ys m)

  map-append_ids : (xs ys : List (Node W)) → map id_of (xs ++ ys) ≡ map id_of xs ++ map id_of ys
  map-append_ids [] ys = refl
  map-append_ids (x ∷ xs) ys = ap (λ l. id_of x ∷ l) (map-append_ids xs ys)

  In-counted : (y : Node W) (xs : List (Node W)) → In y xs → 1 ≤ count (id_of y) (map id_of xs)
  In-counted y [] m = absurd m
  In-counted y (x ∷ xs) (inl e) =
      let h : (id_of x == id_of y) ≡ true =
        ap (λ z. id_of z == id_of y) (sym e) ∙ eq_refl (id_of y) in
      ground arith
  In-counted y (x ∷ xs) (inr m) = ground (arith, In-counted y xs m)

  -- Where ids are distinct, the first node with the id of a node is that node.
  find-In :
      (y : Node W) (xs : List (Node W))
      → In y xs
      → count (id_of y) (map id_of xs) ≤ 1
      → find (λ c. id_of c == id_of y) xs ≡ some y
  find-In y [] m h = absurd m
  find-In y (x ∷ xs) (inl e) h =
      let k : (id_of x == id_of y) ≡ true =
        ap (λ z. id_of z == id_of y) (sym e) ∙ eq_refl (id_of y) in
      rw k (ap some (sym e))
  find-In y (x ∷ xs) (inr m) h = elim (Bool-cases (id_of x == id_of y)) [
    | inl e ↦ absurd (let g = h in ground (arith, In-counted y xs m))
    | inr e ↦ rw e (find-In y xs m (ground (arith, h)))
  ]

  pick-same :
      (xs ys : List (Node W))
      → ((i : String) → count i (map id_of xs) ≤ 1)
      → ((y : Node W) → In y ys → In y xs)
      → pick xs (map id_of ys) ≡ ys
  unfolding pick
  pick-same xs [] once sub = refl
  pick-same xs (y ∷ ys) once sub =
      rw (find-In y xs (sub y (inl refl)) (once (id_of y)))
        (ap (λ l. y ∷ l) (pick-same xs ys once (λ z m. sub z (inr m))))

  split_ids :
      (ns : List (Node W)) (pre post : List String)
      → map id_of ns ≡ pre ++ post
      → (ls : List (Node W)) × (rs : List (Node W)) × (ns ≡ ls ++ rs)
        × (map id_of ls ≡ pre)
        × (map id_of rs ≡ post)
  split_ids ns [] post h = ([], ns, refl, refl, h)
  split_ids [] (x ∷ pre) post h = cc
  split_ids (n ∷ ns) (x ∷ pre) post h =
      let (ls, rs, e, p, s) = split_ids ns pre post (ap rest_of h) in
      let first : id_of n ≡ x = cc in (n ∷ ls, rs, ap (λ l. n ∷ l) e, λ i. first i ∷ p i, s)

  -- The children among which one more is put by its id: the nodes that were there, each whole and in
  -- the order that they had, with the new one among them.
  pub pick-Around :
      (ns : List (Node W)) (c : Node W) (pre post : List String)
      → map id_of ns ≡ pre ++ post
      → ((i : String) → count i (map id_of (ns ++ (c ∷ []))) ≤ 1)
      → (ls : List (Node W)) × (rs : List (Node W)) × (ns ≡ ls ++ rs)
        × (pick (ns ++ (c ∷ [])) (pre ++ (id_of c ∷ post)) ≡ ls ++ (c ∷ rs))
  pick-Around ns c pre post h once =
      let (ls, rs, e, p, s) = split_ids ns pre post h in
      let named : map id_of (ls ++ (c ∷ rs)) ≡ pre ++ (id_of c ∷ post) =
        map-append_ids ls (c ∷ rs) ∙ (λ i. p i ++ (id_of c ∷ s i)) in
      (
        ls,
        rs,
        e,
        ap (pick (ns ++ (c ∷ []))) (sym named)
            ∙ pick-same (ns ++ (c ∷ [])) (ls ++ (c ∷ rs)) once (within ls rs e),
      )
    where
      within :
          (ls rs : List (Node W))
          → ns ≡ ls ++ rs
          → (y : Node W) → In y (ls ++ (c ∷ rs))
          → In y (ns ++ (c ∷ []))
      within ls rs e y m =
          subst (λ l. In y (l ++ (c ∷ []))) (sym e)
            (elim (In-split y ls (c ∷ rs) m) [
              | inl k ↦ In-left y (ls ++ rs) (c ∷ []) (In-left y ls rs k)
              | inr (inl k) ↦ In-right y (ls ++ rs) (c ∷ []) (inl k)
              | inr (inr k) ↦ In-left y (ls ++ rs) (c ∷ []) (In-right y ls rs k)
            ])
