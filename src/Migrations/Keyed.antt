-- ===== src/Migrations/Keyed.antt =====
-- Dictionaries whose entries satisfy a predicate of key and value, and programs that keep a property.
use pgproof.Common.{
  String, Bool, true, false, Option, none, some, [], ◌∷◌, ◌≡◌, ◌≢◌, inl, inr, refl, sym, subst,
  arith, Distinct, All, ◌==◌, text_equality, if◌then◌else◌, Bool-cases, eq_of_test, Result, ok,
  raise, ◌>>=◌, >>=-eq-ok,
}
use pgproof.Common.Dict.{Dict, get, put, delete, keys, Distinct-keys-put}

module _ {V : Type 0} (Q : String → V → Type 0) where
  abbrev pub Holds : Dict String V → Type 0
  Holds [] = Unit
  Holds ((k, v) ∷ d) = Q k v × Holds d

  -- Each key once, with a value that satisfies the predicate.
  abbrev pub IsGood : Dict String V → Type 0
  IsGood d = Distinct (keys d) × Holds d

  Holds-put : (k : String) (v : V) (d : Dict String V) → Q k v → Holds d → Holds (put k v d)
  unfolding put
  Holds-put k v [] q h = (q, tt)
  Holds-put k v ((j, w) ∷ d) q h = elim (Bool-cases (j == k)) [
    | inl t ↦ rw t (subst (λ (z : String). Q z v) (sym (eq_of_test j k t)) q, h.1)
    | inr f ↦ rw f (h.0, Holds-put k v d q h.1)
  ]

  pub IsGood-put : (k : String) (v : V) (d : Dict String V) → Q k v → IsGood d → IsGood (put k v d)
  IsGood-put k v d q (once, h) = (Distinct-keys-put k v d once, Holds-put k v d q h)

  Holds-delete : (k : String) (d : Dict String V) → Holds d → Holds (delete k d)
  unfolding delete
  Holds-delete k [] h = tt
  Holds-delete k ((j, w) ∷ d) h = elim (Bool-cases (j == k)) [
    | inl t ↦ rw t h.1
    | inr f ↦ rw f (h.0, Holds-delete k d h.1)
  ]

  All-keys-delete :
      (P : String → Type 0) (k : String) (d : Dict String V)
      → All P (keys d)
      → All P (keys (delete k d))
  unfolding delete
  All-keys-delete P k [] h = tt
  All-keys-delete P k ((j, w) ∷ d) h = elim (Bool-cases (j == k)) [
    | inl t ↦ rw t h.1
    | inr f ↦ rw f (h.0, All-keys-delete P k d h.1)
  ]

  Distinct-keys-delete :
      (k : String) (d : Dict String V) → Distinct (keys d) → Distinct (keys (delete k d))
  unfolding delete
  Distinct-keys-delete k [] h = tt
  Distinct-keys-delete k ((j, w) ∷ d) h = elim (Bool-cases (j == k)) [
    | inl t ↦ rw t h.1
    | inr f ↦ rw f (All-keys-delete (λ i. j ≢ i) k d h.0, Distinct-keys-delete k d h.1)
  ]

  pub IsGood-delete : (k : String) (d : Dict String V) → IsGood d → IsGood (delete k d)
  IsGood-delete k d (once, h) = (Distinct-keys-delete k d once, Holds-delete k d h)

  pub IsGood-get : (k : String) (d : Dict String V) (v : V) → IsGood d → get k d ≡ some v → Q k v
  unfolding get
  IsGood-get k [] v h e = cc e
  IsGood-get k ((j, w) ∷ d) v ((fresh, once), (q, h)) e = elim (Bool-cases (j == k)) [
    | inl t ↦
        let same : some w ≡ some v = ground (arith, t, e) in
        let value : w ≡ v = cc same in
        subst (λ (z : V). Q k z) value (subst (λ (z : String). Q z w) (eq_of_test j k t) q)
    | inr f ↦ IsGood-get k d v (once, h) (ground (arith, f, e))
  ]

-- What a program returns satisfies a property.
module _ {A : Type 0} {E : Type 0} (P : A → Type 0) where
  abbrev pub Keeps : Result E A → Type 0
  Keeps run = (a : A) → run ≡ ok a → P a

  pub ok-Keeps : (a : A) → P a → Keeps (ok a)
  ok-Keeps a h b e = let same : a ≡ b = cc e in subst (λ (z : A). P z) same h

  pub raise-Keeps : (error : E) → Keeps (raise error)
  raise-Keeps error b e = cc e

  pub >>=-Keeps :
      {B : Type 0} (first : Result E B) (next : B → Result E A)
      → ((b : B) → first ≡ ok b → Keeps (next b))
      → Keeps (first >>= next)
  >>=-Keeps first next h a e = let (b, run, later) = >>=-eq-ok first next e in h b run a later

  pub Option-Keeps :
      {B : Type 0} (o : Option B) (empty : Result E A) (next : B → Result E A)
      → Keeps empty
      → ((b : B) → o ≡ some b → Keeps (next b))
      → Keeps (elim o [ none ↦ empty | some b ↦ next b ])
  Option-Keeps none empty next h k = h
  Option-Keeps (some b) empty next h k = k b refl

  pub if-Keeps : (b : Bool) (x y : Result E A) → Keeps x → Keeps y → Keeps (if b then x else y)
  if-Keeps true x y h k = h
  if-Keeps false x y h k = k

  pub Bool-Keeps :
      (b : Bool) (x y : Result E A) → Keeps x → Keeps y → Keeps (elim b [ false ↦ x | true ↦ y ])
  Bool-Keeps false x y h k = h
  Bool-Keeps true x y h k = k
