-- ===== src/Edge/Memory.antt =====
-- The reference store of src/edge/mod.rs: one writer per session, fenced by an activation token.
use fuaran_rs.Prelude.{
  ℕ, ◌+◌, ◌%◌, ◌^◌, String, ◌≡◌, ◌≢◌, refl, sym, ap, ◌∙◌, false, not, Option, none, some, List, [],
  ◌∷◌, ◌++◌, ◌=?◌, ◌==◌, eq_refl, arith, if◌then◌else◌, any, unwrap_or, Bool-cases, inl, inr,
}
use fuaran_rs.Prelude.Outcome.{Result, ok, err, ◌>>=◌, ◌>>◌, reject_if, >>=-eq-ok, ok-injective}
use fuaran_rs.Tree.{Wire}
use fuaran_rs.OpStream.Chain.{Spine, OpRecord}
use fuaran_rs.Edge.{Checkpoint, StoreError, not_owner, corrupt, SessionStore, Lawful}

pub record SessionState {W : Wire} (S : Spine W) (Document : Type 0) : Type 0 where
  pub activation : ℕ
  pub records : List (OpRecord S)
  pub saved : Option (Checkpoint Document)

-- `BTreeMap<String, SessionState>`
abbrev pub Sessions : {W : Wire} → Spine W → Type 0 → Type 0
Sessions S D = List (String × SessionState S D)

module _ {W : Wire} {S : Spine W} {D : Type 0} where
  abbrev pub lookup : String → Sessions S D → Option (SessionState S D)
  lookup id [] = none
  lookup id ((k, v) ∷ m) = if k == id then some v else lookup id m

  abbrev pub put : String → SessionState S D → Sessions S D → Sessions S D
  put id v [] = (id, v) ∷ []
  put id v ((k, w) ∷ m) = let rest = put id v m in if k == id then (id, v) ∷ m else (k, w) ∷ rest

  abbrev pub fresh_state : SessionState S D
  fresh_state = record { activation = 0; records = []; saved = none }

  -- `entry(..).or_default()`
  abbrev pub state_of : String → Sessions S D → SessionState S D
  state_of id st = unwrap_or (lookup id st) fresh_state

  unfoldable pub owner : Sessions S D → String → ℕ
  owner st id = (state_of id st).activation

  abbrev require_state : Option (SessionState S D) → Result StoreError (SessionState S D)
  require_state none = err corrupt
  require_state (some s) = ok s

  unfoldable pub check_owner : Sessions S D → String → ℕ → Result StoreError (Unit {0})
  unfolding owner
  check_owner st id presented =
      reject_if (not (owner st id =? presented)) (not_owner (owner st id) presented)

  unfoldable pub memory_acquire : Sessions S D → String → Result StoreError (ℕ × Sessions S D)
  memory_acquire st id =
      let n = ((state_of id st).activation + 1) % 2 ^ 64 in
      ok (n, put id (record (state_of id st) { activation = n }) st)

  unfoldable pub memory_append :
      Sessions S D → String → ℕ → OpRecord S → Result StoreError (Sessions S D)
  unfolding check_owner
  memory_append st id a r = do
    check_owner st id a
    s ← require_state (lookup id st)
    reject_if (any (λ q. q.sequence =? r.sequence) s.records) corrupt
    ok (put id (record s { records = s.records ++ (r ∷ []) }) st)

  unfoldable pub memory_checkpoint :
      Sessions S D → String → ℕ → Checkpoint D → Result StoreError (Sessions S D)
  unfolding check_owner
  memory_checkpoint st id a c = do
    check_owner st id a
    s ← require_state (lookup id st)
    ok (put id (record s { saved = some c }) st)

  -- `InMemoryDurableStore`
  abbrev pub in_memory_store : SessionStore S D
  in_memory_store = record {
    Store = Sessions S D;
    acquire = memory_acquire;
    journal = λ st id. ok (state_of id st).records;
    append = memory_append;
    checkpoint = memory_checkpoint;
    latest_checkpoint = λ st id. ok (state_of id st).saved;
  }

  lookup-put :
      (id : String) (v : SessionState S D) (st : Sessions S D) → lookup id (put id v st) ≡ some v
  lookup-put id v [] = rw (eq_refl id) refl
  lookup-put id v ((k, w) ∷ m) = elim (Bool-cases (k == id)) [
    | inl e ↦ rw (e, eq_refl id) refl
    | inr e ↦ rw (e, e) (lookup-put id v m)
  ]

  found_state :
      (id : String) (st : Sessions S D) {s : SessionState S D}
      → require_state (lookup id st) ≡ ok s
      → state_of id st ≡ s
  found_state id st h = go (lookup id st) h
    where
      go :
          (o : Option (SessionState S D)) {s : SessionState S D}
          → require_state o ≡ ok s
          → unwrap_or o fresh_state ≡ s
      go none h = cc
      go (some v) h = ok-injective h

  state-put :
      (id : String) (v : SessionState S D) (st : Sessions S D) → state_of id (put id v st) ≡ v
  state-put id v st = ap (λ o. unwrap_or o fresh_state) (lookup-put id v st)

  -- What a `put` of a state leaves to be read.
  read_records :
      (id : String) (v : SessionState S D) (st st' : Sessions S D)
      → put id v st ≡ st'
      → (state_of id st').records ≡ v.records
  read_records id v st st' e =
      ap (λ m. (state_of id m).records) (sym e) ∙ ap (λ w. w.records) (state-put id v st)

  read_saved :
      (id : String) (v : SessionState S D) (st st' : Sessions S D)
      → put id v st ≡ st'
      → (state_of id st').saved ≡ v.saved
  read_saved id v st st' e =
      ap (λ m. (state_of id m).saved) (sym e) ∙ ap (λ w. w.saved) (state-put id v st)

  acquire-keeps :
      (st : Sessions S D) (id : String) {a : ℕ} {st' : Sessions S D}
      → memory_acquire st id ≡ ok (a, st')
      → ((state_of id st').records ≡ (state_of id st).records)
        × ((state_of id st').saved ≡ (state_of id st).saved)
  unfolding memory_acquire
  acquire-keeps st id {st' = st'} h =
      let e = ap (λ p. p.1) (ok-injective h) in
      (read_records id _ st st' e, read_saved id _ st st' e)

  append-journals :
      (st : Sessions S D) (id : String) (a : ℕ) (r : OpRecord S) {st' : Sessions S D}
      → memory_append st id a r ≡ ok st'
      → ((state_of id st').records ≡ (state_of id st).records ++ (r ∷ []))
        × ((state_of id st').saved ≡ (state_of id st).saved)
  unfolding memory_append
  append-journals st id a r {st'} h =
      let (u, e1, h1) = >>=-eq-ok (check_owner st id a) _ h in
      let (s, e2, h2) = >>=-eq-ok (require_state (lookup id st)) _ h1 in
      let (v, e3, h3) =
        >>=-eq-ok (reject_if (any (λ q. q.sequence =? r.sequence) s.records) _) _ h2 in
      let e = ok-injective h3 in
      let w = found_state id st e2 in
      (
        read_records id _ st st' e ∙ ap (λ x. x.records ++ (r ∷ [])) (sym w),
        read_saved id _ st st' e ∙ ap (λ x. x.saved) (sym w),
      )

  checkpoint-keeps :
      (st : Sessions S D) (id : String) (a : ℕ) (c : Checkpoint D) {st' : Sessions S D}
      → memory_checkpoint st id a c ≡ ok st'
      → ((state_of id st').records ≡ (state_of id st).records) × ((state_of id st').saved ≡ some c)
  unfolding memory_checkpoint
  checkpoint-keeps st id a c {st'} h =
      let (u, e1, h1) = >>=-eq-ok (check_owner st id a) _ h in
      let (s, e2, h2) = >>=-eq-ok (require_state (lookup id st)) _ h1 in
      let e = ok-injective h2 in
      (
        read_records id _ st st' e ∙ ap (λ x. x.records) (sym (found_state id st e2)),
        read_saved id _ st st' e,
      )

  -- The reference store keeps the contract that a durable session relies on: acquiring changes neither
  -- journal nor checkpoint, an append adds its record at the journal's end, and a checkpoint is the
  -- latest one afterwards.
  pub in_memory_store-Lawful : Lawful in_memory_store
  in_memory_store-Lawful = record {
    acquire_keeps = λ st id h. let k = acquire-keeps st id h in (ap ok k.0, ap ok k.1);
    append_journals = λ st id a r h j.
        let k = append-journals st id a r h in
        (ap ok (k.0 ∙ ap (λ xs. xs ++ (r ∷ [])) (ok-injective j)), ap ok k.1);
    checkpoint_keeps =
        λ st id a c h. let k = checkpoint-keeps st id a c h in (ap ok k.0, ap ok k.1);
  }

  -- Once a session is acquired anew, a write that presents any other activation is refused and names
  -- both, whatever it would write.
  pub memory_acquire-fences :
      (st : Sessions S D) (id : String) (b : ℕ) (st' : Sessions S D) (a : ℕ) (r : OpRecord S)
      (c : Checkpoint D)
      → memory_acquire st id ≡ ok (b, st')
      → b ≢ a
      → (memory_append st' id a r ≡ err (not_owner b a))
        × (memory_checkpoint st' id a c ≡ err (not_owner b a))
  unfolding memory_acquire memory_append memory_checkpoint check_owner owner
  memory_acquire-fences st id b st' a r c h n =
      let e = ap (λ p. p.1) (ok-injective h) in
      let o : (state_of id st').activation ≡ b =
        ap (λ m. (state_of id m).activation) (sym e)
        ∙ ap (λ w. w.activation) (state-put id _ st)
        ∙ ap (λ p. p.0) (ok-injective h) in
      let d : (b =? a) ≡ false = ground arith in (rw (o, d) refl, rw (o, d) refl)
