-- ===== src/Risk/Rules.antt =====
-- What an assessment reports, and what it may not leave out.
use pgproof.Common.{
  String, Bool, true, false, not, ◌&&◌, ◌||◌, Option, none, some, List, ◌≡◌, refl, ap, ◌∙◌, subst,
  ◌⊎◌, inl, inr, ◌==◌, text_equality, if◌then◌else◌, eq_of_test, test_of_eq, text_dec,
}
use pgproof.Ir.{SourceRef}
use pgproof.Risk.Syntax.{OpCall, bool_keyword, has_keyword, argument}
use pgproof.Risk.Assess.{
  RiskCategory, destructive, constraint, type_change, index, MigrationRisk, target_table,
  is_created, unfilled, risk, assess_method, assess_call, drops_table, drops_column,
  drops_constraint, validates_rows, needs_full_scan, changes_type, blocks_writes, lock_fact,
  type_change_rewrites, add_constraint, alter_column, add_index,
}

-- Data that is dropped or rewritten does not come back by a downgrade.
abbrev pub undone : RiskCategory → Bool
undone destructive = false
undone type_change = false
undone constraint = true
undone index = true

-- The first return of `_assess_call`.
guarded :
    {A : Type 0} (b created : Bool) (x : Option A) (r : A)
    → (if not b && created then none else x) ≡ some r
    → (x ≡ some r) × ((b ≡ true) ⊎ (created ≡ false))
guarded true created x r h = (h, inl refl)
guarded false true x r h = cc h
guarded false false x r h = (h, inr refl)

abbrev column_word : String
column_word = "drop_column"

literals_differ : (column_word == "drop_table") ≡ false
unfolding text_dec
literals_differ = refl

column_is_no_table : (method : String) → method ≡ "drop_column" → (method == "drop_table") ≡ false
column_is_no_table method p = ap (λ m. m == "drop_table") p ∙ literals_differ

module _ (revision : String) (source : SourceRef) where
  -- The risk is one of the call, and claims to be reversible where its category is.
  abbrev pub IsOf : OpCall → MigrationRisk → Type 0
  IsOf c r =
      (r.revision ≡ revision)
      × (r.operation ≡ c.method)
      × (r.source ≡ source)
      × (r.reversible ≡ undone r.category)

  -- Whatever a result holds is a risk of the call.
  abbrev IsOfCall : OpCall → Option MigrationRisk → Type 0
  IsOfCall c o = (r : MigrationRisk) → o ≡ some r → IsOf c r

  none-IsOfCall : (c : OpCall) → IsOfCall c none
  none-IsOfCall c r h = cc h

  some-IsOfCall : (c : OpCall) (x : MigrationRisk) → IsOf c x → IsOfCall c (some x)
  some-IsOfCall c x good r h = subst (IsOf c) (let e : x ≡ r = cc h in e) good

  if-IsOfCall :
      (c : OpCall) (b : Bool) (x y : Option MigrationRisk)
      → IsOfCall c x
      → IsOfCall c y
      → IsOfCall c (if b then x else y)
  if-IsOfCall c true x y p q = p
  if-IsOfCall c false x y p q = q

  assess_method-IsOfCall : (c : OpCall) → IsOfCall c (assess_method revision source c)
  unfolding assess_method
  assess_method-IsOfCall c =
      let same = λ (x : MigrationRisk) (good : IsOf c x). some-IsOfCall c x good in
      let made = risk revision source c.method in
      if-IsOfCall c (c.method == "drop_table") _ _
        (same (made destructive drops_table false none none) (refl, refl, refl, refl))
        (if-IsOfCall c (c.method == "drop_column") _ _
          (same (made destructive drops_column false none none) (refl, refl, refl, refl))
          (if-IsOfCall c (c.method == "drop_constraint") _ _
            (same (made constraint drops_constraint true none none) (refl, refl, refl, refl))
            (if-IsOfCall c
              (c.method == "create_unique_constraint"
                || c.method == "create_foreign_key"
                || c.method == "create_check_constraint")
              _ _
              (same (made constraint validates_rows true none (some add_constraint))
                (refl, refl, refl, refl))
              (if-IsOfCall c (c.method == "add_column") _ _
                (if-IsOfCall c (unfilled (argument c.args 1)) _ _
                  (same (made constraint needs_full_scan true (some lock_fact) none)
                    (refl, refl, refl, refl))
                  (none-IsOfCall c))
                (if-IsOfCall c (c.method == "alter_column" && has_keyword c.keywords "type_") _ _
                  (same
                    (made type_change changes_type false (some type_change_rewrites)
                      (some alter_column))
                    (refl, refl, refl, refl))
                  (if-IsOfCall c (c.method == "create_index") _ _
                    (if-IsOfCall c (bool_keyword c.keywords "postgresql_concurrently") _ _
                      (none-IsOfCall c)
                      (same (made index blocks_writes true none (some add_index))
                        (refl, refl, refl, refl)))
                    (none-IsOfCall c)))))))

  pub assess_call-IsExplained :
      (created : List String) (c : OpCall) (r : MigrationRisk)
      → assess_call revision source created c ≡ some r
      → IsOf c r × ((c.method ≡ "drop_table") ⊎ (is_created (target_table c) created ≡ false))
  unfolding assess_call
  assess_call-IsExplained created c r h =
      let (found, why) =
        guarded (c.method == "drop_table") (is_created (target_table c) created)
          (assess_method revision source c) r h in
      (
        assess_method-IsOfCall c r found,
        elim why [ inl t ↦ inl (eq_of_test c.method "drop_table" t) | inr f ↦ inr f ],
      )

  -- A call that loses data: a table, or a column of a table that was there before.
  abbrev pub IsLoss : List String → OpCall → Type 0
  IsLoss created c =
      (c.method ≡ "drop_table")
      ⊎ ((c.method ≡ "drop_column") × (is_created (target_table c) created ≡ false))

  pub assess_call-IsLoss :
      (created : List String) (c : OpCall)
      → IsLoss created c
      → (r : MigrationRisk) × (assess_call revision source created c ≡ some r)
        × (r.category ≡ destructive)
        × (r.operation ≡ c.method)
        × (r.reversible ≡ false)
  unfolding assess_call assess_method
  assess_call-IsLoss created c (inl p) = (
    risk revision source c.method destructive drops_table false none none,
    rw (test_of_eq c.method "drop_table" p) refl,
    refl,
    refl,
    refl,
  )
  assess_call-IsLoss created c (inr (p, q)) = (
    risk revision source c.method destructive drops_column false none none,
    rw (column_is_no_table c.method p) (rw q (rw (test_of_eq c.method "drop_column" p) refl)),
    refl,
    refl,
    refl,
  )
