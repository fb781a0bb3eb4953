-- ===== src/Reconciliation/Relations.antt =====
-- The loops of `_reconcile_relationships`, which may raise on a malformed table id.
use pgproof.Common.{
  String, false, List, [], ◌∷◌, ◌≡◌, refl, ap, sym, subst, inl, inr, In, All, contains, Bool-cases,
  ok, >>=-eq-ok, text_equality, pair_equality,
}
use pgproof.Common.Dict.{Dict, keys}
use pgproof.Ir.{SchemaIr, ConstraintIr, CodeIr, RelationshipIr}
use pgproof.Reconciliation.Defs.{
  orm_only_relationship, physical_fk_without_orm_relationship, Emission, table_name, TablePair,
  unbacked, undeclared, unbacked_emission, undeclared_emission,
}
use pgproof.Reconciliation.Drift.{
  foreign_keys, relationships, unbacked_relationship, undeclared_foreign_key, IsTrue,
}
use pgproof.Reconciliation.Completeness.{IsEmitted}

pub unbacked_complete :
    (fks : List TablePair) (source target : String) (r : RelationshipIr)
    (rs : Dict TablePair RelationshipIr) (es : List Emission)
    → unbacked fks rs ≡ ok es
    → In ((source, target), r) rs
    → contains (source, target) fks ≡ false
    → IsEmitted orm_only_relationship (source ∷ target ∷ []) es
unfolding unbacked
unbacked_complete fks source target r [] es h m k = elim m [ ]
unbacked_complete fks source target r (((s, t), x) ∷ rs) es h m k =
    elim (Bool-cases (contains (s, t) fks)) [
      | inl y ↦ elim m [
        | inl p ↦ cc (subst (λ (q : TablePair). contains q fks ≡ false) (ap (λ z. z.0) p) k, y)
        | inr later ↦ unbacked_complete fks source target r rs es (rw y at h) later k
      ]
      | inr n ↦
          let (a, ha, h1) = >>=-eq-ok (table_name s) _ (rw n at h) in
          let (b, hb, h2) = >>=-eq-ok (table_name t) _ h1 in
          let (rest, hr, h3) = >>=-eq-ok (unbacked fks rs) _ h2 in
          subst (IsEmitted orm_only_relationship (source ∷ target ∷ []))
            (let z : unbacked_emission s t a b x ∷ rest ≡ es = cc h3 in z)
            (elim m [
              | inl p ↦ (
                unbacked_emission s t a b x,
                inl refl,
                refl,
                ap (λ z. (z.0).0 ∷ (z.0).1 ∷ []) (sym p),
              )
              | inr later ↦
                  let (e, i, p, q) = unbacked_complete fks source target r rs rest hr later k in
                  (e, inr i, p, q)
            ])
    ]

pub undeclared_complete :
    (fks : List TablePair) (source target : String) (r : ConstraintIr)
    (rs : Dict TablePair ConstraintIr) (es : List Emission)
    → undeclared fks rs ≡ ok es
    → In ((source, target), r) rs
    → contains (source, target) fks ≡ false
    → IsEmitted physical_fk_without_orm_relationship (source ∷ target ∷ []) es
unfolding undeclared
undeclared_complete fks source target r [] es h m k = elim m [ ]
undeclared_complete fks source target r (((s, t), x) ∷ rs) es h m k =
    elim (Bool-cases (contains (s, t) fks)) [
      | inl y ↦ elim m [
        | inl p ↦ cc (subst (λ (q : TablePair). contains q fks ≡ false) (ap (λ z. z.0) p) k, y)
        | inr later ↦ undeclared_complete fks source target r rs es (rw y at h) later k
      ]
      | inr n ↦
          let (a, ha, h1) = >>=-eq-ok (table_name s) _ (rw n at h) in
          let (b, hb, h2) = >>=-eq-ok (table_name t) _ h1 in
          let (rest, hr, h3) = >>=-eq-ok (undeclared fks rs) _ h2 in
          subst (IsEmitted physical_fk_without_orm_relationship (source ∷ target ∷ []))
            (let z : undeclared_emission s t a b x ∷ rest ≡ es = cc h3 in z)
            (elim m [
              | inl p ↦ (
                undeclared_emission s t a b x,
                inl refl,
                refl,
                ap (λ z. (z.0).0 ∷ (z.0).1 ∷ []) (sym p),
              )
              | inr later ↦
                  let (e, i, p, q) = undeclared_complete fks source target r rs rest hr later k in
                  (e, inr i, p, q)
            ])
    ]

pub unbacked-IsTrue :
    (physical orm : SchemaIr) (code : CodeIr) (rs : Dict TablePair RelationshipIr)
    (es : List Emission)
    → unbacked (keys (foreign_keys physical)) rs ≡ ok es
    → ((pair : TablePair) (r : RelationshipIr)
        → In (pair, r) rs
        → In (pair, r) (relationships code))
    → All (IsTrue physical orm code) es
unfolding unbacked
unbacked-IsTrue physical orm code [] es h m =
    subst (All (IsTrue physical orm code)) (let z : [] ≡ es = cc h in z) tt
unbacked-IsTrue physical orm code (((s, t), x) ∷ rs) es h m =
    elim (Bool-cases (contains (s, t) (keys (foreign_keys physical)))) [
      | inl y ↦ unbacked-IsTrue physical orm code rs es (rw y at h) (λ pair r k. m pair r (inr k))
      | inr n ↦
          let (a, ha, h1) = >>=-eq-ok (table_name s) _ (rw n at h) in
          let (b, hb, h2) = >>=-eq-ok (table_name t) _ h1 in
          let (rest, hr, h3) = >>=-eq-ok (unbacked (keys (foreign_keys physical)) rs) _ h2 in
          subst (All (IsTrue physical orm code))
            (let z : unbacked_emission s t a b x ∷ rest ≡ es = cc h3 in z)
            (
              unbacked_relationship s t x (m (s, t) x (inl refl)) n,
              unbacked-IsTrue physical orm code rs rest hr (λ pair r k. m pair r (inr k)),
            )
    ]

pub undeclared-IsTrue :
    (physical orm : SchemaIr) (code : CodeIr) (rs : Dict TablePair ConstraintIr)
    (es : List Emission)
    → undeclared (keys (relationships code)) rs ≡ ok es
    → ((pair : TablePair) (r : ConstraintIr)
        → In (pair, r) rs
        → In (pair, r) (foreign_keys physical))
    → All (IsTrue physical orm code) es
unfolding undeclared
undeclared-IsTrue physical orm code [] es h m =
    subst (All (IsTrue physical orm code)) (let z : [] ≡ es = cc h in z) tt
undeclared-IsTrue physical orm code (((s, t), x) ∷ rs) es h m =
    elim (Bool-cases (contains (s, t) (keys (relationships code)))) [
      | inl y ↦ undeclared-IsTrue physical orm code rs es (rw y at h) (λ pair r k. m pair r (inr k))
      | inr n ↦
          let (a, ha, h1) = >>=-eq-ok (table_name s) _ (rw n at h) in
          let (b, hb, h2) = >>=-eq-ok (table_name t) _ h1 in
          let (rest, hr, h3) = >>=-eq-ok (undeclared (keys (relationships code)) rs) _ h2 in
          subst (All (IsTrue physical orm code))
            (let z : undeclared_emission s t a b x ∷ rest ≡ es = cc h3 in z)
            (
              undeclared_foreign_key s t x (m (s, t) x (inl refl)) n,
              undeclared-IsTrue physical orm code rs rest hr (λ pair r k. m pair r (inr k)),
            )
    ]
