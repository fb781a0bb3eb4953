-- ===== src/Advice/Contract.antt =====
-- What the validator of a recommendation accepts.
use pgproof.Common.{
  true, false, not, ◌&&◌, Option, none, some, List, [], ◌∷◌, ◌≡◌, ◌≢◌, ◌↔◌, ◌⊎◌, inl, inr, refl,
  arith, ok, ◌==◌, Bool-cases, eq_of_test, test_of_eq,
}
use pgproof.Advice.Recommendations.{
  Recommendation, verified_improvement, verified_in_fixture, priority_equality,
  verification_equality, is_some, is_empty, verified, validate_contract,
}

-- Something is affected, something is proposed or asked, and a measurement stands exactly where the
-- recommendation is verified, which an improvement that is called verified is.
pub record IsContract (r : Recommendation) : Type 0 where
  pub affects : r.affected_objects ≢ []
  pub supported : (r.proposed_change ≢ none) ⊎ (r.blocking_question ≢ none)
  pub measured : (r.verification_state ≡ verified_in_fixture) ↔ (r.measurement ≢ none)
  pub improved : r.priority ≡ verified_improvement → r.verification_state ≡ verified_in_fixture

filled : {A : Type 0} (xs : List A) → is_empty xs ≡ false → xs ≢ []
filled [] h e = cc h
filled (x ∷ xs) h e = cc e

is_empty-filled : {A : Type 0} (xs : List A) → xs ≢ [] → is_empty xs ≡ false
is_empty-filled [] n = absurd (n refl)
is_empty-filled (x ∷ xs) n = refl

given : {A : Type 0} (o : Option A) → is_some o ≡ true → o ≢ none
given none h e = cc h
given (some a) h e = cc e

is_some-given : {A : Type 0} (o : Option A) → o ≢ none → is_some o ≡ true
is_some-given none n = absurd (n refl)
is_some-given (some a) n = refl

-- The five tests of the validator, all passed.
abbrev Passes : Recommendation → Type 0
Passes r =
    (is_empty r.affected_objects ≡ false)
    × ((not (is_some r.proposed_change) && not (is_some r.blocking_question)) ≡ false)
    × ((verified r && not (is_some r.measurement)) ≡ false)
    × ((is_some r.measurement && not (verified r)) ≡ false)
    × ((r.priority == verified_improvement && not (verified r)) ≡ false)

module _ (r : Recommendation) where
  accepted-Passes : validate_contract r ≡ ok r → Passes r
  unfolding validate_contract
  accepted-Passes h = (
    ground (arith, h),
    ground (arith, h),
    ground (arith, h),
    ground (arith, h),
    ground (arith, h),
  )

  Passes-accepted : Passes r → validate_contract r ≡ ok r
  unfolding validate_contract
  Passes-accepted (a, b, c, d, e) = rw (a, b, c, d, e) refl

  Passes-IsContract : Passes r → IsContract r
  Passes-IsContract (a, b, c, d, e) = record {
    affects = filled r.affected_objects a;
    supported = elim (Bool-cases (is_some r.proposed_change)) [
      | inl t ↦ inl (given r.proposed_change t)
      | inr f ↦ inr (given r.blocking_question (ground (arith, b, f)))
    ];
    measured = (
      λ v.
          given r.measurement
            (ground (arith, c, test_of_eq r.verification_state verified_in_fixture v)),
      λ m.
          eq_of_test r.verification_state verified_in_fixture
            (ground (arith, d, is_some-given r.measurement m)),
    );
    improved = λ p.
        eq_of_test r.verification_state verified_in_fixture
          (ground (arith, e, test_of_eq r.priority verified_improvement p));
  }

  IsContract-Passes : IsContract r → Passes r
  IsContract-Passes h = (
    is_empty-filled r.affected_objects h.affects,
    elim h.supported [
      | inl n ↦ ground (arith, is_some-given r.proposed_change n)
      | inr n ↦ ground (arith, is_some-given r.blocking_question n)
    ],
    elim (Bool-cases (verified r)) [
      | inl t ↦ ground (
        arith,
        is_some-given r.measurement
            (h.measured.0 (eq_of_test r.verification_state verified_in_fixture t)),
      )
      | inr f ↦ rw f refl
    ],
    elim (Bool-cases (is_some r.measurement)) [
      | inl t ↦ ground (
        arith,
        test_of_eq r.verification_state verified_in_fixture (h.measured.1 (given r.measurement t)),
      )
      | inr f ↦ rw f refl
    ],
    elim (Bool-cases (r.priority == verified_improvement)) [
      | inl t ↦ ground (
        arith,
        test_of_eq r.verification_state verified_in_fixture
            (h.improved (eq_of_test r.priority verified_improvement t)),
      )
      | inr f ↦ rw f refl
    ],
  )

  -- A recommendation is accepted exactly where it names an affected object, carries a change or a
  -- question, has a measurement exactly where it is verified in a fixture, and is called a verified
  -- improvement only where it is.
  pub validate_contract-IsContract : (validate_contract r ≡ ok r) ↔ IsContract r
  validate_contract-IsContract =
      (λ h. Passes-IsContract (accepted-Passes h), λ h. Passes-accepted (IsContract-Passes h))
