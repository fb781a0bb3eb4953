-- ===== src/Workload/Counts.antt =====
-- What reconstruct.py keeps of the captured events: every execution is counted, once, where it belongs.
use pgproof.Common.{
  ℕ, suc, ◌+◌, String, Bool, true, false, ◌&&◌, Option, none, some, List, [], ◌∷◌, ◌≡◌, refl, ap,
  sym, ◌∙◌, subst, inl, inr, arith, push, Distinct, count, Bool-cases, Option-cases, ◌==◌,
  text_equality, if◌then◌else◌, eq_of_test,
}
use pgproof.Common.Dict.{
  Dict, keys, get, get_or, put, get-put, get_or-put, keys-put_new, keys-put_old, Distinct-keys-put,
}
use pgproof.Ir.{SourceRef, QueryIr, OperationPhase}
use pgproof.Workload.Events.{CapturedQueryEvent}
use pgproof.Workload.Reconstruct.{
  OperationBuilder, new_builder, add, add_to_transaction, Reconstruction, observe, observe_all,
  parsed, key,
}

-- The transactions of a builder: `build` finds each one.
abbrev pub IsOrdered : OperationBuilder → Type 0
IsOrdered b = b.transaction_order ≡ keys b.transaction_queries

add_to_transaction-IsOrdered :
    (id : Option String) (query : String) (b : OperationBuilder)
    → IsOrdered b
    → IsOrdered (add_to_transaction id query b)
unfolding add_to_transaction
add_to_transaction-IsOrdered none query b h = h
add_to_transaction-IsOrdered (some id) query b h =
    elim (Option-cases (get id b.transaction_queries)) [
      | inl q ↦
          rw (add_to_transaction, q)
            (ap (λ r. push r id) h ∙ sym (keys-put_new id (query ∷ []) b.transaction_queries q))
      | inr (qs, q) ↦
          rw (add_to_transaction, q)
            (h ∙ sym (keys-put_old id (push qs query) b.transaction_queries qs q))
    ]

add-IsOrdered :
    (event : CapturedQueryEvent) (query : QueryIr) (b : OperationBuilder)
    → IsOrdered b
    → IsOrdered (add event query b)
unfolding add
add-IsOrdered event query b h = add_to_transaction-IsOrdered event.transaction_id query.id _ h

add_to_transaction-counts :
    (id : Option String) (query : String) (b : OperationBuilder)
    → (add_to_transaction id query b).query_counts ≡ b.query_counts
unfolding add_to_transaction
add_to_transaction-counts none query b = refl
add_to_transaction-counts (some id) query b = elim (Option-cases (get id b.transaction_queries)) [
  | inl q ↦ rw (add_to_transaction, q) refl
  | inr (qs, q) ↦ rw (add_to_transaction, q) refl
]

add-counts :
    (event : CapturedQueryEvent) (query : QueryIr) (b : OperationBuilder) (q : String)
    → get_or 0 q (add event query b).query_counts
      ≡ (if query.id == q then suc (get_or 0 q b.query_counts) else get_or 0 q b.query_counts)
unfolding add
add-counts event query b q =
    ap (λ d. get_or 0 q d) (add_to_transaction-counts event.transaction_id query.id _)
    ∙ get_or-put 0 query.id q (get_or 0 query.id b.query_counts + 1) b.query_counts
    ∙ elim (Bool-cases (query.id == q)) [
      | inl t ↦ rw t (rw (eq_of_test query.id q t) (omega arith))
      | inr f ↦ rw f refl
    ]

-- The executions that an operation's builder has counted for a query.
unfoldable pub counted : String → String → Dict String OperationBuilder → ℕ
counted k q operations = elim (get k operations) [ none ↦ 0 | some b ↦ get_or 0 q b.query_counts ]

counted-put :
    (operations : Dict String OperationBuilder) (at k id q : String) (old new : ℕ)
    (b : OperationBuilder)
    → get_or 0 q b.query_counts ≡ (if id == q then suc old else old)
    → counted at q operations ≡ old
    → counted k q (put at b operations)
      ≡ (if at == k && id == q then suc (counted k q operations) else counted k q operations)
unfolding counted
counted-put operations at k id q old new b step base = elim (Bool-cases (at == k)) [
  | inr f ↦ rw (counted, get-put at k b operations) (rw (counted, f) refl)
  | inl t ↦
      rw (counted, get-put at k b operations)
        (rw (counted, t)
          (step
            ∙ ap (λ n. if id == q then suc n else n)
                (sym base ∙ ap (λ x. counted x q operations) (eq_of_test at k t))))
]

shift : (b : Bool) (m n : ℕ) → (if b then suc m else m) + n ≡ m + (if b then suc n else n)
shift true m n = omega arith
shift false m n = refl

module _ (parse_query : String → List SourceRef → QueryIr)
    (operation_id : String → OperationPhase → String) where
  -- The executions of a query that belong to an operation.
  abbrev pub executions : String → String → List CapturedQueryEvent → ℕ
  executions operation query events =
      count
        (λ e.
          key parse_query operation_id e == operation
          && (parsed parse_query operation_id e).id == query)
        events

  observe-counted :
      (e : CapturedQueryEvent) (r : Reconstruction) (k q : String)
      → counted k q (observe parse_query operation_id e r).operations ≡ (
          if key parse_query operation_id e == k && (parsed parse_query operation_id e).id == q
          then suc (counted k q r.operations)
          else counted k q r.operations)
  unfolding observe counted get
  observe-counted e r k q =
      let id = key parse_query operation_id e in
      let query = parsed parse_query operation_id e in
      elim (Option-cases (get id r.operations)) [
        | inl n ↦
            rw (observe, n)
              (counted-put r.operations id k query.id q 0 0 (add e query (new_builder e.phase))
                (add-counts e query (new_builder e.phase) q) (rw (counted, n) refl))
        | inr (b, s) ↦
            rw (observe, s)
              (counted-put r.operations id k query.id q (get_or 0 q b.query_counts) 0
                (add e query b) (add-counts e query b q) (rw (counted, s) refl))
      ]

  pub observe_all-counted :
      (events : List CapturedQueryEvent) (r : Reconstruction) (k q : String)
      → counted k q (observe_all parse_query operation_id events r).operations
        ≡ counted k q r.operations + executions k q events
  unfolding observe_all
  observe_all-counted [] r k q = omega arith
  observe_all-counted (e ∷ es) r k q =
      observe_all-counted es (observe parse_query operation_id e r) k q
      ∙ rw (observe-counted e r k q) (
          shift (key parse_query operation_id e == k && (parsed parse_query operation_id e).id == q)
            (counted k q r.operations) (executions k q es))

  -- The order lists the operations, once each, and every builder can be built.
  pub record IsIndexed (r : Reconstruction) : Type 0 where
    pub ordered : r.operation_order ≡ keys r.operations
    pub distinct : Distinct (keys r.operations)
    pub buildable : (k : String) (b : OperationBuilder) → get k r.operations ≡ some b → IsOrdered b

  put-buildable :
      (operations : Dict String OperationBuilder) (at : String) (new : OperationBuilder)
      → IsOrdered new
      → ((k : String) (b : OperationBuilder) → get k operations ≡ some b → IsOrdered b)
      → (k : String) (b : OperationBuilder) → get k (put at new operations) ≡ some b
      → IsOrdered b
  put-buildable operations at new fine h k b p = elim (Bool-cases (at == k)) [
    | inl t ↦
        let same : some new ≡ some b = rw t at (sym (get-put at k new operations) ∙ p) in
        subst IsOrdered (let e : new ≡ b = cc same in e) fine
    | inr f ↦ h k b (rw f at (sym (get-put at k new operations) ∙ p))
  ]

  pub observe-IsIndexed :
      (e : CapturedQueryEvent) (r : Reconstruction)
      → IsIndexed r
      → IsIndexed (observe parse_query operation_id e r)
  unfolding observe
  observe-IsIndexed e r h =
      let id = key parse_query operation_id e in
      let query = parsed parse_query operation_id e in
      elim (Option-cases (get id r.operations)) [
        | inl n ↦
            let new = add e query (new_builder e.phase) in
            rw (observe, n)
              (record {
                ordered = ap (λ o. push o id) h.ordered ∙ sym (keys-put_new id new r.operations n);
                distinct = Distinct-keys-put id new r.operations h.distinct;
                buildable =
                    put-buildable r.operations id new
                      (add-IsOrdered e query (new_builder e.phase) refl) h.buildable;
              })
        | inr (b, s) ↦
            rw (observe, s)
              (record {
                ordered = h.ordered ∙ sym (keys-put_old id (add e query b) r.operations b s);
                distinct = Distinct-keys-put id (add e query b) r.operations h.distinct;
                buildable =
                    put-buildable r.operations id (add e query b)
                      (add-IsOrdered e query b (h.buildable id b s)) h.buildable;
              })
      ]
