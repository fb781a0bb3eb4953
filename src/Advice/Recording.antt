-- ===== src/Advice/Recording.antt =====
-- Recording a core answer: what becomes of the answers and of the derived fields.
use Prim.Native.Char.{Char}
use pgproof.Common.{String, true, Option, some, ◌≡◌, raise, text_equality}
use pgproof.Advice.Questions.{AnswerState, answered, answer_state_equality, core_read_write_mix}
use pgproof.Advice.Answers.{DigitClass, AnswerError, split_two, isdigit, int_of}

module _ (classify : Char → DigitClass) where
  -- The one way to raise: a peak that `isdigit` accepts and `int` does not.
  pub record IsUnread (question : String) (state : AnswerState) (value : Option String)
      : Type 0 where
    text : String
    peak : String
    asked : question ≡ core_read_write_mix
    given : value ≡ some text
    settled : state ≡ answered
    behind : (split_two text).1 ≡ some peak
    digits : isdigit classify peak ≡ true
    error : AnswerError
    unread : int_of classify 0 peak ≡ raise error
