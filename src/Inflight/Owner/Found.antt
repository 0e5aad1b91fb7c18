-- ===== src/Inflight/Owner/Found.antt =====
-- That an orchestration which owns a node is found (`owner_of_node` and `owner_of_slot_observing` of
-- crates/pg-agent-core/src/inflight_ops.rs).
use pg_agent_rs.Prelude.{
  lift, ℕ, ◌≡◌, refl, ◌⊎◌, inl, inr, Bool, true, false, some, List, [], ◌∷◌, ltb, In, In-keep,
  keep-In, Bool-cases, Result, arith,
}
use pg_agent_rs.Inflight.{
  InflightStatus, in_progress, done, abandoned, OpId, InflightOp, target_node_id,
}
use pg_agent_rs.Inflight.Journal.{seen, Io, FileInflightOpStore}
use pg_agent_rs.Inflight.Owner.{
  owns, holds, before, insert_op, sort_ops, later, latest, owner_of_node, consult,
  owner_of_slot_observing,
}

module _ (id_leb : OpId → OpId → Bool) where
  In-insert_op :
      (op o : InflightOp) (os : List InflightOp)
      → (op ≡ o) ⊎ In op os
      → In op (insert_op id_leb o os)
  unfolding insert_op
  In-insert_op op o [] m = m
  In-insert_op op o (x ∷ xs) (inl p) = elim (Bool-cases (before id_leb o x)) [
    | inl e ↦ rw e (inl p)
    | inr e ↦ rw e (inr (In-insert_op op o xs (inl p)))
  ]
  In-insert_op op o (x ∷ xs) (inr (inl p)) = elim (Bool-cases (before id_leb o x)) [
    | inl e ↦ rw e (inr (inl p))
    | inr e ↦ rw e (inl p)
  ]
  In-insert_op op o (x ∷ xs) (inr (inr n)) = elim (Bool-cases (before id_leb o x)) [
    | inl e ↦ rw e (inr (inr n))
    | inr e ↦ rw e (inr (In-insert_op op o xs (inr n)))
  ]

  insert_op-In :
      (op o : InflightOp) (os : List InflightOp)
      → In op (insert_op id_leb o os)
      → (op ≡ o) ⊎ In op os
  unfolding insert_op
  insert_op-In op o [] m = m
  insert_op-In op o (x ∷ xs) m = elim (Bool-cases (before id_leb o x)) [
    | inl e ↦ (rw e at m)
    | inr e ↦ past (insert_op-In op o xs) (rw e at m)
  ]
    where
      past :
          (In op (insert_op id_leb o xs) → (op ≡ o) ⊎ In op xs)
          → In op (x ∷ insert_op id_leb o xs)
          → (op ≡ o) ⊎ In op (x ∷ xs)
      past g (inl p) = inr (inl p)
      past g (inr n) = elim (g n) [ inl p ↦ inl p | inr k ↦ inr (inr k) ]

  In-sort_ops : (op : InflightOp) (os : List InflightOp) → In op os → In op (sort_ops id_leb os)
  unfolding sort_ops
  In-sort_ops op [] m = m
  In-sort_ops op (o ∷ os) (inl p) = In-insert_op op o _ (inl p)
  In-sort_ops op (o ∷ os) (inr n) = In-insert_op op o _ (inr (In-sort_ops op os n))

  sort_ops-In : (op : InflightOp) (os : List InflightOp) → In op (sort_ops id_leb os) → In op os
  unfolding sort_ops
  sort_ops-In op [] m = m
  sort_ops-In op (o ∷ os) m = elim (insert_op-In op o _ m) [
    | inl p ↦ inl p
    | inr n ↦ inr (sort_ops-In op os n)
  ]

  -- the latest of several is one of them
  latest-In :
      (op : InflightOp) (os : List InflightOp)
      → (o : InflightOp) × (later op (latest os) ≡ some o) × ((o ≡ op) ⊎ In o os)
  unfolding latest
  latest-In op [] = (op, refl, inl refl)
  latest-In op (x ∷ xs) =
      let (o, e, m) = latest-In x xs in
      elim (Bool-cases (ltb o.started_at op.started_at)) [
        | inl b ↦ rw e (rw b (op, refl, inl refl))
        | inr b ↦ rw e (rw b (o, refl, inr m))
      ]

  latest-some :
      (op : InflightOp) (os : List InflightOp)
      → In op os
      → (o : InflightOp) × (latest os ≡ some o) × In o os
  unfolding latest
  latest-some op [] (lift m) = absurd m
  latest-some op (x ∷ xs) m = latest-In x xs

  -- Where the journal is read and holds an op that owns the node, an owner is found, and it is an op
  -- of the journal that owns the node.
  pub owner_of_node-some :
      (io : Io) (now node grace : ℕ) (st : FileInflightOpStore) (op : InflightOp)
      → io.reads ≡ true
      → In op (seen io st.ops)
      → owns now grace node op ≡ true
      → (o : InflightOp) × (owner_of_node id_leb io now node grace st ≡ some o)
        × In o (seen io st.ops)
        × (owns now grace node o ≡ true)
  unfolding owner_of_node
  owner_of_node-some io now node grace st op r m h =
      let (o, e, n) =
        latest-some op _
          (In-keep (owns now grace node) op _ (In-sort_ops op (seen io st.ops) m) h) in
      let (k, g) = keep-In (owns now grace node) o _ n in
      rw r (o, e, sort_ops-In o (seen io st.ops) k, g)

-- an op in progress, on the node, that no completed op on that node still owns
abbrev pub Busy : ℕ → ℕ → ℕ → List InflightOp → Type 0
Busy now grace node ops =
    ((op : InflightOp) × In op ops
      × (op.status ≡ in_progress)
      × (target_node_id op.payload ≡ some node))
    × ((o : InflightOp) → In o ops → o.status ≡ done → owns now grace node o ≡ false)

abandoned-owns :
    (now node grace : ℕ) (op : InflightOp) → op.status ≡ abandoned → owns now grace node op ≡ false
unfolding owns holds
abandoned-owns now node grace op p = rw p (ground arith)

in_progress-owns :
    (now node grace : ℕ) (op : InflightOp)
    → op.status ≡ in_progress
    → target_node_id op.payload ≡ some node
    → owns now grace node op ≡ true
unfolding owns holds
in_progress-owns now node grace op p t = rw p (rw t (ground arith))

consult-some :
    (io : Io) (now node grace : ℕ) (active : Result (Unit {0}) Bool) (o : InflightOp)
    (st : FileInflightOpStore) (s : InflightStatus)
    → o.status ≡ s
    → owns now grace node o ≡ true
    → (s ≡ done → owns now grace node o ≡ false)
    → consult io now active o s st ≡ (some o, st)
unfolding consult
consult-some io now node grace active o st in_progress e h q = refl
consult-some io now node grace active o st done e h q = absurd (cc (h, q refl))
consult-some io now node grace active o st abandoned e h q =
    absurd (ground (arith, abandoned-owns now node grace o e, h))

consulted :
    (id_leb : OpId → OpId → Bool) (io : Io) (now node grace : ℕ) (active : Result (Unit {0}) Bool)
    (st : FileInflightOpStore) (o : InflightOp)
    → owner_of_node id_leb io now node grace st ≡ some o
    → consult io now active o o.status st ≡ (some o, st)
    → owner_of_slot_observing id_leb io now (some node) grace active st ≡ (some o, st)
unfolding owner_of_slot_observing
consulted id_leb io now node grace active st o e c = rw (e, owner_of_slot_observing) c

-- While the journal is read and an op in progress on a node is read in it, and no completed op on it is still
-- in its grace window, the slot of that node has an owner, whatever the evidence about the slot, and
-- asking for the owner leaves the journal as it was.
pub owner_of_slot-Busy :
    (id_leb : OpId → OpId → Bool) (io : Io) (now node grace : ℕ) (active : Result (Unit {0}) Bool)
    (st : FileInflightOpStore)
    → io.reads ≡ true
    → Busy now grace node (seen io st.ops)
    → (o : InflightOp) × (owner_of_slot_observing id_leb io now (some node) grace active st
        ≡ (some o, st))
owner_of_slot-Busy id_leb io now node grace active st r ((op, m, p, t), quiet) =
    let h = in_progress-owns now node grace op p t in
    let (o, e, n, g) = owner_of_node-some id_leb io now node grace st op r m h in
    (
      o,
      consulted id_leb io now node grace active st o e
          (consult-some io now node grace active o st o.status refl g (quiet o n)),
    )
