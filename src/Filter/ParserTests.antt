-- ===== src/Filter/ParserTests.antt =====
-- Runs of the tokenizer and the parser on small inputs.
use go_odata.Prelude.{◌≡◌, refl, true, false, [], Result, ok, out_of_fuel, Bytes, codes, pos}
use go_odata.Filter.Ast.{
  AstNode, binary_expr, comparison_expr, identifier_expr, literal_expr, integer, text, lambda_expr,
  predicate, function_call_expr, node, no_nodes, collection_expr, unary_expr,
}
use go_odata.Filter.Values.{Codecs, number_literal}
use go_odata.Filter.Tokenizer.{tokenize_all}
use go_odata.Filter.Parser.{parse}
use go_odata.Filter.Parser.Cursor.{ParseError}

abbrev no_codecs : Codecs
no_codecs = record { float_parses = λ _ _. false; decoders = [] }

abbrev parsed : Bytes → Result ParseError AstNode
parsed input = elim (tokenize_all input true) [ ok ts ↦ parse no_codecs ts | _ ↦ out_of_fuel ]

precedence :
    parsed (codes "a add 1 mul b gt 2 or not c eq 'x'")
    ≡ ok (
        binary_expr
          (comparison_expr
            (binary_expr (identifier_expr (codes "a")) (codes "add") (
              binary_expr
                (number_literal (integer (pos 1)))
                (codes "mul")
                (identifier_expr (codes "b"))))
            (codes "gt")
            (number_literal (integer (pos 2))))
          (codes "or")
          (unary_expr (codes "not") (
            comparison_expr
              (identifier_expr (codes "c"))
              (codes "eq")
              (literal_expr (text (codes "x")) (codes "string")))))
unfolding tokenize_all parse
precedence = refl

paths :
    parsed (codes "Orders/any(o:o/Total in (1,2)) and startswith(Name,'A')")
    ≡ ok (
        binary_expr
          (lambda_expr (identifier_expr (codes "Orders")) (codes "any") (codes "o") (
            predicate (
              comparison_expr (identifier_expr (codes "o/Total")) (codes "in") (
                collection_expr (
                  node
                    (number_literal (integer (pos 1)))
                    (node (number_literal (integer (pos 2))) no_nodes))))))
          (codes "and")
          (function_call_expr (codes "startswith") (
            node
              (identifier_expr (codes "Name"))
              (node (literal_expr (text (codes "A")) (codes "string")) no_nodes))))
unfolding tokenize_all parse
paths = refl
