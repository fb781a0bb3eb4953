-- ===== src/Risk/Samples.antt =====
-- A migration that drops a column, makes a table and indexes it; and one that makes the table anew.
use pgproof.Common.{String, false, List, [], ◌∷◌, ◌≡◌, refl, none, some, Option, text_dec}
use pgproof.Common.Dict.{get}
use pgproof.Ir.{SourceRef}
use pgproof.Risk.Syntax.{
  Expression, constant, name, attribute, call, Arguments, no_argument, and_argument, no_keyword,
  text_constant, Node, expression_statement, TopLevel, function, OpCall, op_of, op_call,
  find_keyword, is_true, bool_keyword, has_keyword, argument, text_of,
}
use pgproof.Risk.Assess.{
  MigrationRisk, destructive, drops_column, target_table, created_by, created_tables, is_created,
  unfilled, risk, assess_method, assess_call, assess_nodes, upgrade_function, assess_migration,
}

program : Unit {0}
unfolding text_dec get op_of op_call find_keyword is_true bool_keyword has_keyword argument text_of
    target_table created_by created_tables is_created unfilled assess_method assess_call
    assess_nodes upgrade_function assess_migration
program = tt

abbrev text : String → Expression
text t = constant (text_constant t)

abbrev op : String → Arguments → Node
op method args = expression_statement (call (attribute (name "op") method) args no_keyword)

abbrev upgrade : List Node
upgrade =
    op "drop_column" (and_argument (text "orders") (and_argument (text "note") no_argument))
    ∷ op "create_table" (and_argument (text "items") no_argument)
    ∷ op "create_index" (and_argument (text "ix") (and_argument (text "items") no_argument))
    ∷ []

abbrev parse : String → Option (List TopLevel)
parse source_text = some (function "upgrade" upgrade ∷ [])

abbrev file : SourceRef
file = record {
  path = "versions/0001.py";
  line = none;
  end_line = none;
  content_hash = "sha256:0";
  symbol = none;
}

abbrev dropped : MigrationRisk
dropped = risk "0001" file "drop_column" destructive drops_column false none none

reported : assess_migration parse "" "0001" file ≡ dropped ∷ []
unfolding program
reported = refl

-- A column is dropped from a table that is there; the table is dropped and made anew only later.
abbrev recreated : List Node
recreated =
    op "drop_column" (and_argument (text "orders") (and_argument (text "note") no_argument))
    ∷ op "create_table" (and_argument (text "orders") no_argument)
    ∷ []

abbrev parse_recreated : String → Option (List TopLevel)
parse_recreated source_text = some (function "upgrade" recreated ∷ [])

created_later_is_silent : assess_migration parse_recreated "" "0001" file ≡ []
unfolding program
created_later_is_silent = refl

abbrev drop_call : OpCall
drop_call = record {
  method = "drop_column";
  args = and_argument (text "orders") (and_argument (text "note") no_argument);
  keywords = no_keyword;
}
