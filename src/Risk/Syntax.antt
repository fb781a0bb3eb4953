-- ===== src/Risk/Syntax.antt =====
-- The part of Python's syntax trees (the standard library's `ast`) that risk.py looks at. What else
-- stands in a tree is `other`. `ast.parse` and `ast.walk` are outside: a function carries the
-- nodes that `ast.walk` visits, in its order.
use Prim.Native.Nat.{ℕ, zero, suc}
use pgproof.Common.{
  String, Bool, true, false, Option, none, some, List, ◌==◌, text_equality, if◌then◌else◌,
}

pub data Constant : Type 0 where
  text_constant : String → Constant
  true_constant other_constant : Constant

mutual
  pub data Expression : Type 0 where
    constant : Constant → Expression
    name : String → Expression
    attribute : (value : Expression) (attr : String) → Expression
    call : (func : Expression) (args : Arguments) (keywords : Keywords) → Expression
    other_expression : Expression

  -- Lists of expressions and of keywords. A keyword's name is none for `**kwargs`.
  pub data Arguments : Type 0 where
    no_argument : Arguments
    and_argument : Expression → Arguments → Arguments

  pub data Keywords : Type 0 where
    no_keyword : Keywords
    and_keyword : (arg : Option String) (value : Expression) → Keywords → Keywords

pub data Node : Type 0 where
  expression_statement : Expression → Node
  other_node : Node

pub data TopLevel : Type 0 where
  function : (name : String) (walk : List Node) → TopLevel
  other_definition : TopLevel

-- A call `op.<method>(…)`: the method, the positional arguments and the keywords.
pub record OpCall : Type 0 where
  pub method : String
  pub args : Arguments
  pub keywords : Keywords

unfoldable pub op_of : Expression → Arguments → Keywords → Option OpCall
op_of (attribute (name object) method) args keywords =
    if object == "op"
    then some (record { method = method; args = args; keywords = keywords })
    else none
op_of _ args keywords = none

-- _op_call
unfoldable pub op_call : Node → Option OpCall
unfolding op_of
op_call (expression_statement (call func args keywords)) = op_of func args keywords
op_call _ = none

-- _keyword
unfoldable pub find_keyword : Keywords → String → Option Expression
find_keyword no_keyword wanted = none
find_keyword (and_keyword none value keywords) wanted = find_keyword keywords wanted
find_keyword (and_keyword (some arg) value keywords) wanted =
    let rest = find_keyword keywords wanted in if arg == wanted then some value else rest

-- _bool_keyword and _has_keyword
unfoldable pub is_true : Option Expression → Bool
is_true (some (constant true_constant)) = true
is_true _ = false

unfoldable pub bool_keyword : Keywords → String → Bool
unfolding find_keyword is_true
bool_keyword keywords wanted = is_true (find_keyword keywords wanted)

unfoldable pub has_keyword : Keywords → String → Bool
unfolding find_keyword
has_keyword keywords wanted = elim (find_keyword keywords wanted) [ none ↦ false | some _ ↦ true ]

-- `args[index]`, where there is such an argument
unfoldable pub argument : Arguments → ℕ → Option Expression
argument no_argument index = none
argument (and_argument e es) zero = some e
argument (and_argument e es) (suc index) = argument es index

unfoldable pub text_of : Option Expression → Option String
text_of (some (constant (text_constant text))) = some text
text_of _ = none
