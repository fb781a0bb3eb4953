-- ===== src/Identifiers/SameObjects.antt =====
-- The canonical identity names the rule and the set of the objects, and nothing else.
use pgproof.Common.{
  String, List, [], ◌∷◌, ◌≡◌, ◌↔◌, sym, ap, ◌∙◌, subst, arith, In, ok, text_equality,
}
use pgproof.Common.Sets.{unique, In-unique, unique-In, Distinct-unique}
use pgproof.Common.Sorting.{
  text_le, text_le-IsOrder, sort_by, In-sort_by, sort_by-In, IsAscending-sort_by, Distinct-sort_by,
  ascending_unique,
}
use pgproof.Identifiers.Framing.{text, texts, frame_components}
use pgproof.Identifiers.Framing.Injective.{frame_components-injective}
use pgproof.Identifiers.Identity.{canonical_recommendation_identity}

objects : List String → List String
objects xs = sort_by text_le (unique xs)

objects-In : (x : String) (xs : List String) → In x (objects xs) → In x xs
unfolding objects
objects-In x xs m = unique-In x xs (sort_by-In text_le x (unique xs) m)

In-objects : (x : String) (xs : List String) → In x xs → In x (objects xs)
unfolding objects
In-objects x xs m = In-sort_by text_le x (unique xs) (In-unique x xs m)

-- Sorting forgets the order and the repetitions, and nothing else.
objects_unique :
    (xs ys : List String)
    → ((x : String) → In x xs → In x ys)
    → ((x : String) → In x ys → In x xs)
    → objects xs ≡ objects ys
unfolding objects
objects_unique xs ys into onto =
    ascending_unique text_le-IsOrder (objects xs) (objects ys)
      (IsAscending-sort_by text_le-IsOrder (unique xs))
      (IsAscending-sort_by text_le-IsOrder (unique ys))
      (Distinct-sort_by text_le (unique xs) (Distinct-unique xs))
      (Distinct-sort_by text_le (unique ys) (Distinct-unique ys))
      (λ x m. In-objects x ys (into x (objects-In x xs m)))
      (λ x m. In-objects x xs (onto x (objects-In x ys m)))

canonical-eq-ok :
    (rule : String) (xs : List String) (id : String)
    → canonical_recommendation_identity rule xs ≡ ok id
    → frame_components (text rule ∷ texts (objects xs) ∷ []) ≡ id
unfolding canonical_recommendation_identity objects
canonical-eq-ok rule xs id e = ground (arith, e)

-- Two recommendations that have identities have the same one exactly where the rule is the same, and
-- each affected object of one is an affected object of the other.
pub canonical_recommendation_identity-IsSame :
    (rule rule' : String) (xs ys : List String) (id id' : String)
    → canonical_recommendation_identity rule xs ≡ ok id
    → canonical_recommendation_identity rule' ys ≡ ok id'
    → (id ≡ id')
      ↔ ((rule ≡ rule') × ((x : String) → In x xs → In x ys) × ((x : String) → In x ys → In x xs))
canonical_recommendation_identity-IsSame rule rule' xs ys id id' e f =
    let p = canonical-eq-ok rule xs id e in
    let q = canonical-eq-ok rule' ys id' f in
    (
      λ same.
          let framed : (text rule ∷ texts (objects xs) ∷ [])
              ≡ (text rule' ∷ texts (objects ys) ∷ []) =
            frame_components-injective (text rule ∷ texts (objects xs) ∷ [])
              (text rule' ∷ texts (objects ys) ∷ []) (p ∙ same ∙ sym q) in
          let named : rule ≡ rule' = cc framed in
          let held : objects xs ≡ objects ys = cc framed in
          (
            named,
            λ x m. objects-In x ys (subst (λ (l : List String). In x l) held (In-objects x xs m)),
            λ x m.
                objects-In x xs
                  (subst (λ (l : List String). In x l) (sym held) (In-objects x ys m)),
          ),
      λ (named, into, onto).
          sym p
          ∙ ap (λ r. frame_components (text r ∷ texts (objects xs) ∷ [])) named
          ∙ ap (λ os. frame_components (text rule' ∷ texts os ∷ []))
              (objects_unique xs ys into onto)
          ∙ q,
    )
