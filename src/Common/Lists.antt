-- ===== src/Common/Lists.antt =====
-- Lists measured by native numbers, membership tests and comprehensions.
use Prim.Native.Nat.{ℕ, suc, ◌+◌}
use mathlib.Core.Path.{◌≡◌, refl, sym, ◌∙◌, ap, subst}
use mathlib.Core.Logic.{◌⊎◌, ◌≢◌, inl, inr}
use mathlib.Core.Bool.{Bool, true, false, ◌&&◌, ◌||◌}
use mathlib.Core.List.{List, [], ◌∷◌, ◌++◌, map}
use native.Mathlib.Omega.{arith}
use pgproof.Common.Tests.{Eq, ◌==◌, Bool-cases, if◌then◌else◌}

-- The empty type at every level.
pub data Nowhere {ℓ} : Type ℓ where

module _ {ℓ} {A : Type ℓ} where
  abbrev pub length : List A → ℕ
  length [] = 0
  length (x ∷ xs) = suc (length xs)

  -- `xs.append(x)`
  abbrev pub push : List A → A → List A
  push xs x = xs ++ x ∷ []

  -- `any` and `all` over a generator expression
  abbrev pub any : (A → Bool) → List A → Bool
  any p [] = false
  any p (x ∷ xs) = p x || any p xs

  abbrev pub all : (A → Bool) → List A → Bool
  all p [] = true
  all p (x ∷ xs) = p x && all p xs

  -- `[x for x in xs if p(x)]`
  abbrev pub keep : (A → Bool) → List A → List A
  keep p [] = []
  keep p (x ∷ xs) = let rest = keep p xs in if p x then x ∷ rest else rest

  -- A predicate holds of each element.
  abbrev pub All {κ} : (A → Type κ) → List A → Type κ
  All P [] = Unit
  All P (x ∷ xs) = P x × All P xs

  -- `x` stands in the list: at the head, or later.
  abbrev pub In : A → List A → Type ℓ
  In x [] = Nowhere
  In x (y ∷ ys) = (x ≡ y) ⊎ In x ys

module _ {ℓ} {A : Type ℓ} where
  pub length-append : (xs ys : List A) → length (xs ++ ys) ≡ length xs + length ys
  length-append [] ys = omega arith
  length-append (x ∷ xs) ys = omega (arith, length-append xs ys)

  pub any-push : (p : A → Bool) (xs : List A) (x : A) → any p (push xs x) ≡ (any p xs || p x)
  any-push p [] x = ground arith
  any-push p (y ∷ ys) x = ground (arith, any-push p ys x)

  pub any-append : (p : A → Bool) (xs ys : List A) → any p (xs ++ ys) ≡ (any p xs || any p ys)
  any-append p [] ys = refl
  any-append p (x ∷ xs) ys = ground (arith, any-append p xs ys)

  pub push-append : (xs : List A) (x : A) (ys : List A) → push xs x ++ ys ≡ xs ++ x ∷ ys
  push-append [] x ys = refl
  push-append (z ∷ zs) x ys = ap (λ r. z ∷ r) (push-append zs x ys)

  module _ {κ} (P : A → Type κ) where
    pub All-append : (xs ys : List A) → All P xs → All P ys → All P (xs ++ ys)
    All-append [] ys h k = k
    All-append (x ∷ xs) ys h k = (h.0, All-append xs ys h.1 k)

    pub All-In : (x : A) (xs : List A) → All P xs → In x xs → P x
    All-In x [] h m = elim m [ ]
    All-In x (y ∷ ys) h (inl p) = rw p h.0
    All-In x (y ∷ ys) h (inr m) = All-In x ys h.1 m

    pub All-of_In : (xs : List A) → ((x : A) → In x xs → P x) → All P xs
    All-of_In [] h = tt
    All-of_In (x ∷ xs) h = (h x (inl refl), All-of_In xs (λ y m. h y (inr m)))

  pub In-append_left : (x : A) (xs ys : List A) → In x xs → In x (xs ++ ys)
  In-append_left x [] ys m = elim m [ ]
  In-append_left x (z ∷ zs) ys (inl p) = inl p
  In-append_left x (z ∷ zs) ys (inr m) = inr (In-append_left x zs ys m)

  pub In-append_right : (x : A) (xs ys : List A) → In x ys → In x (xs ++ ys)
  In-append_right x [] ys m = m
  In-append_right x (z ∷ zs) ys m = inr (In-append_right x zs ys m)

  pub In-append_cases : (x : A) (xs ys : List A) → In x (xs ++ ys) → In x xs ⊎ In x ys
  In-append_cases x [] ys m = inr m
  In-append_cases x (z ∷ zs) ys (inl p) = inl (inl p)
  In-append_cases x (z ∷ zs) ys (inr m) = elim (In-append_cases x zs ys m) [
    | inl a ↦ inl (inr a)
    | inr b ↦ inr b
  ]

  pub In-keep : (p : A → Bool) (x : A) (xs : List A) → In x xs → p x ≡ true → In x (keep p xs)
  In-keep p x [] m h = elim m [ ]
  In-keep p x (y ∷ ys) (inl e) h = rw (ap p (sym e) ∙ h) (inl e)
  In-keep p x (y ∷ ys) (inr m) h = elim (Bool-cases (p y)) [
    | inl t ↦ rw t (inr (In-keep p x ys m h))
    | inr f ↦ rw f (In-keep p x ys m h)
  ]

  pub keep-nil : (p : A → Bool) (xs : List A) → ((x : A) → In x xs → p x ≡ false) → keep p xs ≡ []
  keep-nil p [] h = refl
  keep-nil p (x ∷ xs) h = rw (h x (inl refl)) (keep-nil p xs (λ y m. h y (inr m)))

  pub keep-In : (p : A → Bool) (x : A) (xs : List A) → In x (keep p xs) → In x xs × (p x ≡ true)
  keep-In p x [] m = elim m [ ]
  keep-In p x (y ∷ ys) m = elim (Bool-cases (p y)) [
    | inl t ↦ elim (rw t at m) [
      | inl e ↦ (inl e, ap p e ∙ t)
      | inr k ↦ (inr (keep-In p x ys k).0, (keep-In p x ys k).1)
    ]
    | inr f ↦ (inr (keep-In p x ys (rw f at m)).0, (keep-In p x ys (rw f at m)).1)
  ]

-- No element stands twice.
abbrev pub Distinct {ℓ} : {A : Type ℓ} → List A → Type ℓ
Distinct [] = Unit
Distinct (x ∷ xs) = All (λ y. x ≢ y) xs × Distinct xs

module _ {ℓ} {A : Type ℓ} ⦃e : Eq A⦄ where
  -- `x in xs`
  abbrev pub contains : A → List A → Bool
  contains x xs = any (λ y. x == y) xs

  pub contains→In : (x : A) (xs : List A) → contains x xs ≡ true → In x xs
  contains→In x [] h = cc
  contains→In x (y ∷ ys) h = ground (arith, contains→In x ys)

  pub In→contains : (x : A) (xs : List A) → In x xs → contains x xs ≡ true
  In→contains x [] m = elim m [ ]
  In→contains x (y ∷ ys) (inl p) = ground arith
  In→contains x (y ∷ ys) (inr m) = ground (arith, In→contains x ys m)

  pub ne_of_test : (x y : A) → (x == y) ≡ false → x ≢ y
  ne_of_test x y h p = ground arith

  pub eq_of_test : (x y : A) → (x == y) ≡ true → x ≡ y
  eq_of_test x y h = ground arith

  pub test_of_eq : (x y : A) → x ≡ y → (x == y) ≡ true
  test_of_eq x y h = ground arith

  pub contains-push :
      (y : A) (xs : List A) (x : A) → contains y (push xs x) ≡ (contains y xs || y == x)
  contains-push y xs x = any-push (λ z. y == z) xs x

  -- How often `x` stands in the list.
  abbrev pub times : A → List A → ℕ
  times x [] = 0
  times x (y ∷ ys) = let rest = times x ys in if y == x then suc rest else rest

  pub times-push :
      (x : A) (ys : List A) (y : A)
      → times x (push ys y) ≡ (if y == x then suc (times x ys) else times x ys)
  times-push x [] y = refl
  times-push x (z ∷ zs) y = ground (arith, times-push x zs y)

module _ {ℓ} {A : Type ℓ} where
  pub Distinct-append :
      (xs ys : List A)
      → Distinct xs
      → Distinct ys
      → ((x : A) → In x xs → (y : A) → In y ys → x ≢ y)
      → Distinct (xs ++ ys)
  Distinct-append [] ys d e apart = e
  Distinct-append (x ∷ xs) ys (fresh, d) e apart = (
    All-append (λ y. x ≢ y) xs ys fresh (All-of_In (λ y. x ≢ y) ys (apart x (inl refl))),
    Distinct-append xs ys d e (λ z m. apart z (inr m)),
  )

  pub Distinct-push :
      (xs : List A) (x : A) → Distinct xs → All (λ y. y ≢ x) xs → Distinct (push xs x)
  Distinct-push [] x d h = (tt, tt)
  Distinct-push (y ∷ ys) x d h =
      (All-append (λ z. y ≢ z) ys (x ∷ []) d.0 (h.0, tt), Distinct-push ys x d.1 h.1)

  -- A predicate that implies another at each element of the list.
  pub All-map {κ μ} :
      (P : A → Type κ) (Q : A → Type μ) (xs : List A)
      → ((x : A) → In x xs → P x → Q x)
      → All P xs
      → All Q xs
  All-map P Q [] f h = tt
  All-map P Q (x ∷ xs) f h = (f x (inl refl) h.0, All-map P Q xs (λ y m. f y (inr m)) h.1)

  pub In-push : (x y : A) (xs : List A) → In x xs → In x (push xs y)
  In-push x y [] m = elim m [ ]
  In-push x y (z ∷ zs) (inl p) = inl p
  In-push x y (z ∷ zs) (inr m) = inr (In-push x y zs m)

  pub In-push_cases : (x y : A) (xs : List A) → In x (push xs y) → In x xs ⊎ (x ≡ y)
  In-push_cases x y [] (inl p) = inr p
  In-push_cases x y [] (inr m) = elim m [ ]
  In-push_cases x y (z ∷ zs) (inl p) = inl (inl p)
  In-push_cases x y (z ∷ zs) (inr m) = elim (In-push_cases x y zs m) [
    | inl k ↦ inl (inr k)
    | inr e ↦ inr e
  ]

  pub In-push_last : (x : A) (xs : List A) → In x (push xs x)
  In-push_last x xs = In-append_right x xs (x ∷ []) (inl refl)

  -- How many elements pass a test.
  abbrev pub count : (A → Bool) → List A → ℕ
  count p [] = 0
  count p (x ∷ xs) = let rest = count p xs in if p x then suc rest else rest

-- The elements that a loop's body adds, in order.
abbrev pub concat_map {ℓ κ} : {A : Type ℓ} {B : Type κ} → (A → List B) → List A → List B
concat_map f [] = []
concat_map f (x ∷ xs) = f x ++ concat_map f xs

module _ {ℓ κ} {A : Type ℓ} {B : Type κ} where
  pub All-concat_map {μ} :
      (P : B → Type μ) (f : A → List B) (xs : List A)
      → ((x : A) → In x xs → All P (f x))
      → All P (concat_map f xs)
  All-concat_map P f [] h = tt
  All-concat_map P f (x ∷ xs) h =
      All-append P (f x) (concat_map f xs) (h x (inl refl))
        (All-concat_map P f xs (λ y m. h y (inr m)))

  pub In-concat_map :
      (f : A → List B) (x : A) (y : B) (xs : List A) → In x xs → In y (f x) → In y (concat_map f xs)
  In-concat_map f x y [] m k = elim m [ ]
  In-concat_map f x y (z ∷ zs) (inl p) k = In-append_left y (f z) _ (subst (λ w. In y (f w)) p k)
  In-concat_map f x y (z ∷ zs) (inr m) k = In-append_right y (f z) _ (In-concat_map f x y zs m k)

  pub concat_map-In :
      (f : A → List B) (y : B) (xs : List A)
      → In y (concat_map f xs)
      → (x : A) × In x xs × In y (f x)
  concat_map-In f y [] m = elim m [ ]
  concat_map-In f y (x ∷ xs) m = elim (In-append_cases y (f x) (concat_map f xs) m) [
    | inl here ↦ (x, inl refl, here)
    | inr later ↦ let (z, k, q) = concat_map-In f y xs later in (z, inr k, q)
  ]

  pub In-map : (f : A → B) (x : A) (xs : List A) → In x xs → In (f x) (map f xs)
  In-map f x [] m = elim m [ ]
  In-map f x (y ∷ ys) (inl p) = inl (ap f p)
  In-map f x (y ∷ ys) (inr m) = inr (In-map f x ys m)

  pub map-In : (f : A → B) (y : B) (xs : List A) → In y (map f xs) → (x : A) × In x xs × (y ≡ f x)
  map-In f y [] m = elim m [ ]
  map-In f y (x ∷ xs) (inl p) = (x, inl refl, p)
  map-In f y (x ∷ xs) (inr m) = let (z, k, q) = map-In f y xs m in (z, inr k, q)
