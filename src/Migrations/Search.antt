-- ===== src/Migrations/Search.antt =====
-- The first result of a search over a list that is not empty, and the part of a stack from a node on.
use pgproof.Common.{
  String, true, Option, some, List, [], ◌∷◌, ◌≡◌, ◌≢◌, inl, inr, refl, ap, ◌∙◌, arith, In, ◌==◌,
  text_equality, contains, Bool-cases, Option-cases, test_of_eq,
}
use pgproof.Migrations.Graph.{from_node, first_found}

pub from_node-ne :
    (node : String) (stack : List String) → contains node stack ≡ true → from_node node stack ≢ []
unfolding from_node
from_node-ne node [] h e = cc h
from_node-ne node (x ∷ stack) h e = elim (Bool-cases (x == node)) [
  | inl t ↦ let k : (x ∷ stack) ≡ [] = ground (arith, t, e) in cc k
  | inr f ↦ from_node-ne node stack (ground (arith, h, f, test_of_eq x node)) (ground (arith, f, e))
]

pub first_found-none_found :
    (f : String → Option (List String)) (xs : List String)
    → first_found f xs ≡ some []
    → (x : String) → In x xs
    → f x ≡ some []
unfolding first_found
first_found-none_found f [] h x m = elim m [ ]
first_found-none_found f (y ∷ ys) h x m = elim (Option-cases (f y)) [
  | inl n ↦ ground (arith, n, h)
  | inr ([], e) ↦ elim m [
    | inl p ↦ ap f p ∙ e
    | inr k ↦ first_found-none_found f ys (ground (arith, e, h)) x k
  ]
  | inr (z ∷ zs, e) ↦ ground (arith, e, h)
]

pub first_found-found :
    (f : String → Option (List String)) (xs : List String) (y : String) (ys : List String)
    → first_found f xs ≡ some (y ∷ ys)
    → (x : String) × In x xs × (f x ≡ some (y ∷ ys))
unfolding first_found
first_found-found f [] y ys h = cc h
first_found-found f (x ∷ xs) y ys h = elim (Option-cases (f x)) [
  | inl n ↦ ground (arith, n, h)
  | inr ([], e) ↦
      let (z, m, k) = first_found-found f xs y ys (ground (arith, e, h)) in (z, inr m, k)
  | inr (z ∷ zs, e) ↦ (x, inl refl, ground (arith, e, h))
]

pub first_found-returns :
    (f : String → Option (List String)) (xs : List String)
    → ((x : String) → In x xs → (r : List String) × (f x ≡ some r))
    → (r : List String) × (first_found f xs ≡ some r)
unfolding first_found
first_found-returns f [] h = ([], refl)
first_found-returns f (x ∷ xs) h =
    let (found, e) = h x (inl refl) in
    let (later, k) = first_found-returns f xs (λ y m. h y (inr m)) in first_or found later e k
  where
    first_or :
        (found later : List String)
        → f x ≡ some found
        → first_found f xs ≡ some later
        → (r : List String) × (first_found f (x ∷ xs) ≡ some r)
    first_or [] later e k = (later, ground (arith, e, k))
    first_or (z ∷ zs) later e k = (z ∷ zs, ground (arith, e))
