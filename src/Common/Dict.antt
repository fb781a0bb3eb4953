-- ===== src/Common/Dict.antt =====
-- Python's `dict`: keys in the order of their first insertion, one value each.
use mathlib.Core.Path.{◌≡◌, refl, ap, sym}
use mathlib.Core.Logic.{◌≢◌, ◌⊎◌, inl, inr}
use mathlib.Core.Option.{Option, none, some}
use mathlib.Core.List.{List, [], ◌∷◌}
use native.Mathlib.Omega.{arith}
use pgproof.Common.Tests.{Eq, ◌==◌, if◌then◌else◌, Bool-cases}
use pgproof.Common.Lists.{All, In, Distinct, push, ne_of_test}

abbrev pub Dict {ℓ κ} : Type ℓ → Type κ → Type (ℓ ⊔ κ)
Dict K V = List (K × V)

module _ {ℓ κ} {K : Type ℓ} {V : Type κ} where
  abbrev pub keys : Dict K V → List K
  keys [] = []
  keys ((k, v) ∷ d) = k ∷ keys d

  abbrev pub values : Dict K V → List V
  values [] = []
  values ((k, v) ∷ d) = v ∷ values d

module _ {ℓ κ} {K : Type ℓ} {V : Type κ} ⦃e : Eq K⦄ where
  -- `d.get(k)`
  unfoldable pub get : K → Dict K V → Option V
  get k [] = none
  get k ((j, v) ∷ d) = if j == k then some v else get k d

  -- `d[k] = v`
  unfoldable pub put : K → V → Dict K V → Dict K V
  put k v [] = (k, v) ∷ []
  put k v ((j, w) ∷ d) = if j == k then (j, v) ∷ d else (j, w) ∷ put k v d

  -- `d.pop(k, None)`, as a statement
  unfoldable pub delete : K → Dict K V → Dict K V
  delete k [] = []
  delete k ((j, v) ∷ d) = let rest = delete k d in if j == k then d else (j, v) ∷ rest

  -- `d.get(k, fallback)`
  abbrev pub get_or : V → K → Dict K V → V
  get_or fallback k d = elim (get k d) [ none ↦ fallback | some v ↦ v ]

  -- `d.setdefault(k, v)`, as a statement
  abbrev pub set_default : K → V → Dict K V → Dict K V
  set_default k v d = elim (get k d) [ none ↦ put k v d | some _ ↦ d ]

  pub get-put :
      (k j : K) (v : V) (d : Dict K V) → get j (put k v d) ≡ (if k == j then some v else get j d)
  unfolding get put
  get-put k j v [] = refl
  get-put k j v ((i, w) ∷ d) = ground (arith, get-put k j v d)

  pub keys-put :
      (k : K) (v : V) (d : Dict K V) (j : K) → In j (keys (put k v d)) → (j ≡ k) ⊎ In j (keys d)
  unfolding put
  keys-put k v [] j (inl p) = inl p
  keys-put k v [] j (inr m) = inr m
  keys-put k v ((i, w) ∷ d) j m = ground (arith, keys-put k v d j)

  pub keys-put_old :
      (k : K) (v : V) (d : Dict K V) (w : V) → get k d ≡ some w → keys (put k v d) ≡ keys d
  unfolding get put
  keys-put_old k v [] w h = cc
  keys-put_old k v ((i, u) ∷ d) w h = ground (arith, keys-put_old k v d w)

  pub get_or-put :
      (fallback : V) (k j : K) (v : V) (d : Dict K V)
      → get_or fallback j (put k v d) ≡ (if k == j then v else get_or fallback j d)
  get_or-put fallback k j v d = ground (arith, get-put k j v d)

  pub keys-put_self : (k : K) (v : V) (d : Dict K V) → In k (keys (put k v d))
  unfolding put
  keys-put_self k v [] = inl refl
  keys-put_self k v ((i, w) ∷ d) = ground (arith, keys-put_self k v d)

  pub keys-put_mono :
      (k : K) (v : V) (d : Dict K V) (j : K) → In j (keys d) → In j (keys (put k v d))
  unfolding put
  keys-put_mono k v [] j m = elim m [ ]
  keys-put_mono k v ((i, w) ∷ d) j m = ground (arith, keys-put_mono k v d j)

  keys-put_fresh :
      (k : K) (v : V) (d : Dict K V) (i : K)
      → i ≢ k
      → All (λ j. i ≢ j) (keys d)
      → All (λ j. i ≢ j) (keys (put k v d))
  unfolding put
  keys-put_fresh k v [] i other h = (other, tt)
  keys-put_fresh k v ((j, w) ∷ d) i other h = elim (Bool-cases (j == k)) [
    | inl t ↦ rw t h
    | inr f ↦ rw f (h.0, keys-put_fresh k v d i other h.1)
  ]

  pub Distinct-keys-put :
      (k : K) (v : V) (d : Dict K V) → Distinct (keys d) → Distinct (keys (put k v d))
  unfolding put
  Distinct-keys-put k v [] h = (tt, tt)
  Distinct-keys-put k v ((j, w) ∷ d) h = elim (Bool-cases (j == k)) [
    | inl t ↦ rw t h
    | inr f ↦ rw f (keys-put_fresh k v d j (ne_of_test j k f) h.0, Distinct-keys-put k v d h.1)
  ]

  pub keys-put_new :
      (k : K) (v : V) (d : Dict K V) → get k d ≡ none → keys (put k v d) ≡ push (keys d) k
  unfolding get put
  keys-put_new k v [] h = refl
  keys-put_new k v ((j, w) ∷ d) h = elim (Bool-cases (j == k)) [
    | inl t ↦ cc (rw t at h)
    | inr f ↦ rw f (ap (λ r. j ∷ r) (keys-put_new k v d (rw f at h)))
  ]

  pub get-keys : (k : K) (d : Dict K V) → In k (keys d) → (v : V) × (get k d ≡ some v)
  unfolding get
  get-keys k [] m = elim m [ ]
  get-keys k ((j, v) ∷ d) m = elim (Bool-cases (j == k)) [
    | inl t ↦ (v, rw t refl)
    | inr f ↦ elim m [
      | inl e ↦ absurd (ne_of_test j k f (sym e))
      | inr later ↦ let (w, p) = get-keys k d later in (w, rw f p)
    ]
  ]
