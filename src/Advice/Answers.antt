-- ===== src/Advice/Answers.antt =====
-- domain/questions.py: which questions are asked, and what an answer does to the context.
use Prim.Native.Char.{Char, code}
use pgproof.Common.{
  ℕ, ◌+◌, ◌*◌, String, Bool, true, false, not, ◌&&◌, ◌||◌, Option, none, some, List, [], ◌∷◌, map,
  Result, ok, raise, ◌>>=◌, leb, eqn, if◌then◌else◌, ◌==◌, text_equality, any, keep, push,
}
use pgproof.Common.Integers.{pos}
use pgproof.Ir.{SchemaIr, TableIr, ColumnIr}
use pgproof.Advice.Questions.{
  AnswerState, answered, TenantModel, single_tenant, shared_schema_tenant_id, schema_per_tenant,
  database_per_tenant, unknown_model, ContextAnswer, TableScale, ContextIr, MaterialQuestion,
  core_critical_operations, core_table_scale, core_read_write_mix, core_tenant_model,
  core_read_after_write, core_rpo_rto, core_retention, core_questions, answer_state_equality,
}

unfoldable pub has_tenant_shaped_column : SchemaIr → Bool
has_tenant_shaped_column schema =
    any (λ (table : TableIr). any (λ (column : ColumnIr). column.name == "tenant_id") table.columns)
      schema.tables

unfoldable pub applicable_core_questions : SchemaIr → List MaterialQuestion
unfolding has_tenant_shaped_column
applicable_core_questions schema =
    if has_tenant_shaped_column schema
    then core_questions
    else keep (λ q. not (q.id == core_tenant_model)) core_questions

-- `str.isspace` of one character
abbrev pub is_space : Char → Bool
is_space c =
    leb 9 (code c) && leb (code c) 13
    || leb 28 (code c) && leb (code c) 32
    || eqn (code c) 0x85
    || eqn (code c) 0xa0
    || eqn (code c) 0x1680
    || leb 0x2000 (code c) && leb (code c) 0x200a
    || leb 0x2028 (code c) && leb (code c) 0x2029
    || eqn (code c) 0x202f
    || eqn (code c) 0x205f
    || eqn (code c) 0x3000

unfoldable pub lstrip : String → String
lstrip String.[] = ""
lstrip (String.◌∷◌ c s) = let rest = lstrip s in if is_space c then rest else String.◌∷◌ c s

unfoldable pub rstrip : String → String
rstrip String.[] = ""
rstrip (String.◌∷◌ c s) =
    let rest = rstrip s in if is_space c && rest == "" then "" else String.◌∷◌ c rest

-- `str.strip`
unfoldable pub strip : String → String
unfolding lstrip rstrip
strip s = rstrip (lstrip s)

-- What stands before the first comma, and behind it.
unfoldable pub partition_comma : String → String × Option String
partition_comma String.[] = ("", none)
partition_comma (String.◌∷◌ c s) =
    let rest = partition_comma s in
    if eqn (code c) 0x2c then ("", some s) else (String.◌∷◌ c rest.0, rest.1)

unfoldable pub add_char : Char → List String → List String
add_char c [] = String.◌∷◌ c "" ∷ []
add_char c (part ∷ parts) = String.◌∷◌ c part ∷ parts

-- `raw.split(",")`
unfoldable pub split_comma : String → List String
unfolding add_char
split_comma String.[] = "" ∷ []
split_comma (String.◌∷◌ c s) =
    let rest = split_comma s in if eqn (code c) 0x2c then "" ∷ rest else add_char c rest

unfoldable pub split_two : String → String × Option String
unfolding strip partition_comma
split_two raw =
    let parts = partition_comma raw in
    elim parts.1 [
      | none ↦ (strip raw, none)
      | some behind ↦
          if strip behind == "" then (strip raw, none) else (strip parts.0, some (strip behind))
    ]

unfoldable pub split_list : String → List String
unfolding strip split_comma
split_list raw = keep (λ part. not (part == "")) (map strip (split_comma raw))

-- `TenantModel(value)`; none where it raises ValueError, which the source catches.
unfoldable pub tenant_model_of : String → Option TenantModel
tenant_model_of value =
    if value == "single_tenant"
    then some single_tenant
    else if value == "shared_schema_tenant_id"
    then some shared_schema_tenant_id
    else if value == "schema_per_tenant"
    then some schema_per_tenant
    else if value == "database_per_tenant"
    then some database_per_tenant
    else if value == "unknown"
    then some unknown_model
    else none

-- What Unicode says of a character: a decimal digit, which `int` reads, another character of
-- which `isdigit` holds, such as a superscript, or neither.
pub data DigitClass : Type 0 where
  decimal_digit : ℕ → DigitClass
  other_digit no_digit : DigitClass

-- `int(peak)` raised ValueError.
pub data AnswerError : Type 0 where
  invalid_literal : AnswerError

abbrev pub is_digit_class : DigitClass → Bool
is_digit_class (decimal_digit n) = true
is_digit_class other_digit = true
is_digit_class no_digit = false

-- `classify` is the Unicode database of the Python interpreter.
module _ (classify : Char → DigitClass) where
  abbrev all_digits : String → Bool
  all_digits String.[] = true
  all_digits (String.◌∷◌ c s) = is_digit_class (classify c) && all_digits s

  -- `text.isdigit()`
  unfoldable pub isdigit : String → Bool
  isdigit text = not (text == "") && all_digits text

  -- `int(text)` of a text of digits
  unfoldable pub int_of : ℕ → String → Result AnswerError ℕ
  int_of n String.[] = ok n
  int_of n (String.◌∷◌ c s) = elim (classify c) [
    | decimal_digit d ↦ int_of (n * 10 + d) s
    | other_digit ↦ raise invalid_literal
    | no_digit ↦ raise invalid_literal
  ]

  unfoldable pub read_write_mix : ContextIr → String → Result AnswerError ContextIr
  unfolding split_two isdigit int_of
  read_write_mix context value =
      let two = split_two value in
      let with_ratio = record context { read_write_ratio = some two.0 } in
      elim two.1 [
        | none ↦ ok with_ratio
        | some peak ↦
            if isdigit peak
            then (do
              n ← int_of 0 peak
              ok (record with_ratio { peak_requests_per_second = some (pos n) }))
            else ok with_ratio
      ]

  abbrev pub recorded : ContextIr → ContextAnswer → ContextIr
  recorded context answer = record context {
    answers = push (keep (λ a. not (a.question == answer.question)) context.answers) answer;
  }

  -- The branches behind `state is ANSWERED and value is not None`.
  unfoldable pub derive : ContextIr → String → String → Result AnswerError ContextIr
  unfolding split_list read_write_mix tenant_model_of split_two
  derive context question value =
      if question == core_critical_operations
      then ok (record context { critical_operations = split_list value })
      else if question == core_read_write_mix
      then read_write_mix context value
      else if question == core_tenant_model
      then elim (tenant_model_of value) [
        | none ↦ ok context
        | some model ↦ ok (record context { tenant_model = model })
      ]
      else if question == core_read_after_write
      then ok (record context {
        consistency_requirements =
            map
              (λ label. record {
                operation_label = label;
                requires_read_after_write = true;
                lag_tolerance_seconds = none;
              })
              (split_list value);
      })
      else if question == core_rpo_rto
      then (let two = split_two value in
          let with_rpo = record context { rpo = some two.0 } in
          elim two.1 [ none ↦ ok with_rpo | some rto ↦ ok (record with_rpo { rto = some rto }) ])
      else if question == core_retention
      then ok (record context { retention_constraints = split_list value })
      else ok context

  unfoldable pub apply_core_answer :
      ContextIr → String → AnswerState → Option String → Result AnswerError ContextIr
  unfolding derive
  apply_core_answer context question state value =
      let context' =
        recorded context
          (record { question = question; state = state; value = value; note = none }) in
      elim value [
        | none ↦ ok context'
        | some text ↦ if state == answered then derive context' question text else ok context'
      ]

unfoldable pub apply_table_scale_answer : ContextIr → List TableScale → AnswerState → ContextIr
apply_table_scale_answer context table_scales state =
    let context' = record context {
      answers =
          push (keep (λ a. not (a.question == core_table_scale)) context.answers)
            (record { question = core_table_scale; state = state; value = none; note = none });
    } in
    if state == answered then record context' { table_scales = table_scales } else context'
