-- ===== src/Advice/Equality.antt =====
-- Python's `==` on recommendations: that of the fields.
use pgproof.Common.{
  Eq, ◌≡◌, refl, record_dec, text_equality, option_equality, list_equality, pair_equality,
}
use pgproof.Common.Integers.{integer_equality}
use pgproof.Advice.Recommendations.{
  RecommendationCategory, ChangeKind, Assumption, TradeOff, InvalidatingContext, Alternative,
  ProposedChange, FixtureMeasurement, Recommendation, priority_equality, verification_equality,
}

unfoldable pub category_dec : (x y : RecommendationCategory) → Dec (x ≡ y)
category_dec = hlevel

instance abbrev category_equality : Eq RecommendationCategory
category_equality = record { dec = category_dec }

unfoldable pub change_kind_dec : (x y : ChangeKind) → Dec (x ≡ y)
change_kind_dec = hlevel

instance abbrev change_kind_equality : Eq ChangeKind
change_kind_equality = record { dec = change_kind_dec }

instance abbrev assumption_equality : Eq Assumption
assumption_equality = record {
  dec =
      record_dec (λ (r : Assumption). (r.statement, r.falsified_by))
        (λ (a0, a1). record { statement = a0; falsified_by = a1 }) (λ r. refl) pair_equality;
}

instance abbrev trade_off_equality : Eq TradeOff
trade_off_equality = record {
  dec =
      record_dec (λ (r : TradeOff). (r.statement, r.affects))
        (λ (a0, a1). record { statement = a0; affects = a1 }) (λ r. refl) pair_equality;
}

instance abbrev invalidating_equality : Eq InvalidatingContext
invalidating_equality = record {
  dec =
      record_dec (λ (r : InvalidatingContext). (r.question, r.condition))
        (λ (a0, a1). record { question = a0; condition = a1 }) (λ r. refl) pair_equality;
}

instance abbrev alternative_equality : Eq Alternative
alternative_equality = record {
  dec =
      record_dec (λ (r : Alternative). (r.summary, (r.selected_by, r.reversibility)))
        (λ (a0, (a1, a2)). record { summary = a0; selected_by = a1; reversibility = a2 })
        (λ r. refl) pair_equality;
}

instance abbrev change_equality : Eq ProposedChange
change_equality = record {
  dec =
      record_dec
        (λ (r : ProposedChange). (
          r.kind,
          (
            r.summary,
            (
              r.sql_sketch,
              (r.migration_sketch, (r.application_sketch, (r.rollback_note, r.test_sketch))),
            ),
          ),
        ))
        (λ (a0, (a1, (a2, (a3, (a4, (a5, a6)))))). record {
          kind = a0;
          summary = a1;
          sql_sketch = a2;
          migration_sketch = a3;
          application_sketch = a4;
          rollback_note = a5;
          test_sketch = a6;
        })
        (λ r. refl) pair_equality;
}

instance abbrev measurement_equality : Eq FixtureMeasurement
measurement_equality = record {
  dec =
      record_dec
        (λ (r : FixtureMeasurement). (
          r.fixture_scale,
          (r.control_median_us, (r.treatment_median_us, (r.absolute_saving_us, r.proof))),
        ))
        (λ (a0, (a1, (a2, (a3, a4)))). record {
          fixture_scale = a0;
          control_median_us = a1;
          treatment_median_us = a2;
          absolute_saving_us = a3;
          proof = a4;
        })
        (λ r. refl) pair_equality;
}

unfoldable pub recommendation_dec : (x y : Recommendation) → Dec (x ≡ y)
recommendation_dec =
    record_dec
      (λ (r : Recommendation). (
        r.id,
        (
          r.rule,
          (
            r.rule_version,
            (
              r.title,
              (
                r.priority,
                (
                  r.category,
                  (
                    r.statement,
                    (
                      r.affected_objects,
                      (
                        r.evidence_refs,
                        (
                          r.assumptions,
                          (
                            r.trade_offs,
                            (
                              r.invalidating_context,
                              (
                                r.alternatives,
                                (
                                  r.verification_state,
                                  (r.measurement, (r.proposed_change, r.blocking_question)),
                                ),
                              ),
                            ),
                          ),
                        ),
                      ),
                    ),
                  ),
                ),
              ),
            ),
          ),
        ),
      ))
      (λ (
        a0,
        (
          a1,
          (
            a2,
            (a3, (a4, (a5, (a6, (a7, (a8, (a9, (a10, (a11, (a12, (a13, (a14, (a15, a16))))))))))))),
          ),
        ),
      ).
        record {
          id = a0;
          rule = a1;
          rule_version = a2;
          title = a3;
          priority = a4;
          category = a5;
          statement = a6;
          affected_objects = a7;
          evidence_refs = a8;
          assumptions = a9;
          trade_offs = a10;
          invalidating_context = a11;
          alternatives = a12;
          verification_state = a13;
          measurement = a14;
          proposed_change = a15;
          blocking_question = a16;
        })
      (λ r. refl) pair_equality

instance abbrev pub recommendation_equality : Eq Recommendation
recommendation_equality = record { dec = recommendation_dec }
