-- ===== src/Advice/Blockers.antt =====
-- The answers once one is recorded, and the required questions that stay open.
use pgproof.Common.{
  String, Bool, true, not, Option, none, List, ◌≡◌, ◌≢◌, ◌⊎◌, inl, inr, sym, ap, ◌∙◌, subst, arith,
  In, ◌==◌, text_equality, push, keep, keep-In, In-keep, In-push_last, In-push_cases, In-push,
  Bool-cases, eq_of_test, test_of_eq, contains, contains→In, In→contains, In-map, map-In,
}
use pgproof.Advice.Questions.{
  AnswerState, answered, ContextAnswer, ContextIr, answer_state_equality,
}
use pgproof.Advice.Scenarios.{
  ScenarioKind, required_questions, answered_questions, unresolved_blockers_for,
}

-- The answers after one is recorded: the others stand, and there is one for the question.
pub record IsRecorded (old : List ContextAnswer) (answer : ContextAnswer) (new : List ContextAnswer)
    : Type 0 where
  pub there : In answer new
  pub once : (a : ContextAnswer) → In a new → a.question ≡ answer.question → a ≡ answer
  pub others :
      (a : ContextAnswer)
      → a.question ≢ answer.question
      → (In a new → In a old) × (In a old → In a new)

pub push-IsRecorded :
    (old : List ContextAnswer) (answer : ContextAnswer)
    → IsRecorded old answer (push (keep (λ a. not (a.question == answer.question)) old) answer)
push-IsRecorded old answer =
    let others_only : ContextAnswer → Bool = λ a. not (a.question == answer.question) in
    record {
      there = In-push_last answer (keep others_only old);
      once = λ a m e. elim (In-push_cases a answer (keep others_only old) m) [
        | inl k ↦
            let t : others_only a ≡ true = (keep-In others_only a old k).1 in
            cc (test_of_eq a.question answer.question e, t)
        | inr same ↦ same
      ];
      others = λ a n. (
        λ m. elim (In-push_cases a answer (keep others_only old) m) [
          | inl k ↦ (keep-In others_only a old k).0
          | inr same ↦ absurd (n (ap (λ (z : ContextAnswer). z.question) same))
        ],
        λ m.
            In-push a answer (keep others_only old)
              (In-keep others_only a old m (differ a.question answer.question n)),
      );
    }
  where
    differ : (x y : String) → x ≢ y → not (x == y) ≡ true
    differ x y n = ground (arith, n)

-- The required questions that stay open: this one unless it is answered now, another as before.
abbrev pub StaysOpen : ContextIr → String → AnswerState → ScenarioKind → String → Type 0
StaysOpen c question state kind x =
    In x (required_questions kind)
    × (((x ≡ question) × (state ≢ answered))
        ⊎ ((x ≢ question) × In x (unresolved_blockers_for kind c)))

-- A question that an answer in the list answers.
IsAnswered : String → List ContextAnswer → Type 0
IsAnswered x answers = (a : ContextAnswer) × In a answers × (a.state ≡ answered) × (x ≡ a.question)

answered_questions-IsAnswered :
    (x : String) (answers : List ContextAnswer)
    → In x (answered_questions answers)
    → IsAnswered x answers
unfolding IsAnswered
answered_questions-IsAnswered x answers m =
    let (a, k, e) =
      map-In (λ (z : ContextAnswer). z.question) x
        (keep (λ (z : ContextAnswer). z.state == answered) answers) m in
    let (given, t) = keep-In (λ (z : ContextAnswer). z.state == answered) a answers k in
    (a, given, eq_of_test a.state answered t, e)

IsAnswered-answered_questions :
    (x : String) (answers : List ContextAnswer)
    → IsAnswered x answers
    → In x (answered_questions answers)
unfolding IsAnswered
IsAnswered-answered_questions x answers (a, given, t, e) =
    subst (λ (y : String). In y (answered_questions answers)) (sym e)
      (In-map (λ (z : ContextAnswer). z.question) a
        (keep (λ (z : ContextAnswer). z.state == answered) answers)
        (In-keep (λ (z : ContextAnswer). z.state == answered) a answers given
          (test_of_eq a.state answered t)))

blockers-open :
    (kind : ScenarioKind) (c : ContextIr) (x : String)
    → In x (unresolved_blockers_for kind c)
    → In x (required_questions kind) × (¬ (IsAnswered x c.answers))
unfolding unresolved_blockers_for
blockers-open kind c x m =
    let (required, t) =
      keep-In (λ q. not (contains q (answered_questions c.answers))) x (required_questions kind)
        m in
    (
      required,
      λ a. cc (
        In→contains x (answered_questions c.answers) (IsAnswered-answered_questions x c.answers a),
        t,
      ),
    )

open-blockers :
    (kind : ScenarioKind) (c : ContextIr) (x : String)
    → In x (required_questions kind)
    → (¬ (IsAnswered x c.answers))
    → In x (unresolved_blockers_for kind c)
unfolding unresolved_blockers_for
open-blockers kind c x required n =
    In-keep (λ q. not (contains q (answered_questions c.answers))) x (required_questions kind)
      required
      (elim (Bool-cases (contains x (answered_questions c.answers))) [
        | inl t ↦ absurd (
            n (
              answered_questions-IsAnswered x c.answers
                (contains→In x (answered_questions c.answers) t)))
        | inr f ↦ ap not f
      ])

module _ (c c' : ContextIr) (question : String) (state : AnswerState) (value : Option String)
    (kind : ScenarioKind) (x : String)
    (recorded_one : IsRecorded c.answers
      (record { question = question; state = state; value = value; note = none })
      c'.answers) where
  pub blockers-StaysOpen :
      In x (unresolved_blockers_for kind c') → StaysOpen c question state kind x
  unfolding IsAnswered
  blockers-StaysOpen m =
      let (required, n) = blockers-open kind c' x m in
      elim (text_equality.dec x question) [
        | yes p ↦ (required, inl (p, λ t. n (_, recorded_one.there, t, p)))
        | no q ↦ (
          required,
          inr (
            q,
            open-blockers kind c x required
                (λ (a, given, t, e). n (a, (recorded_one.others a (λ s. q (e ∙ s))).1 given, t, e)),
          ),
        )
      ]

  pub StaysOpen-blockers :
      StaysOpen c question state kind x → In x (unresolved_blockers_for kind c')
  unfolding IsAnswered
  StaysOpen-blockers (required, inl (p, n)) = open-blockers kind c' x required (λ (a, given, t, e).
      n (ap (λ (z : ContextAnswer). z.state) (sym (recorded_one.once a given (sym e ∙ p))) ∙ t))
  StaysOpen-blockers (required, inr (q, m)) = open-blockers kind c' x required (λ (a, given, t, e).
      (blockers-open kind c x m).1 (a, (recorded_one.others a (λ s. q (e ∙ s))).0 given, t, e))
