-- ===== src/Filter/Ast.antt =====
-- internal/query/ast.go: the syntax tree. The pools that its nodes come from are not modelled: a
-- node is acquired, and all its fields are set.
use go_odata.Prelude.{ℕ, Bool, Bytes, ℤ}

-- `LiteralExpr.Value`. A floating-point value is named by the call of strconv.ParseFloat whose
-- result it is, `floating 32 text` or `floating 64 text`.
pub data LiteralValue : Type 0 where
  text : Bytes → LiteralValue
  integer : ℤ → LiteralValue
  floating : ℕ → Bytes → LiteralValue
  infinity minus_infinity not_a_number nil : LiteralValue
  truth : Bool → LiteralValue
  decoded : Bytes → LiteralValue

-- `Nodes` is a slice of nodes, and `Predicate` a node that may be nil.
mutual
  pub data AstNode : Type 0 where
    binary_expr : AstNode → Bytes → AstNode → AstNode
    unary_expr : Bytes → AstNode → AstNode
    comparison_expr : AstNode → Bytes → AstNode → AstNode
    function_call_expr : Bytes → Nodes → AstNode
    identifier_expr : Bytes → AstNode
    literal_expr : LiteralValue → Bytes → AstNode
    group_expr : AstNode → AstNode
    collection_expr : Nodes → AstNode
    lambda_expr : AstNode → Bytes → Bytes → Predicate → AstNode

  pub data Nodes : Type 0 where
    no_nodes : Nodes
    node : AstNode → Nodes → Nodes

  pub data Predicate : Type 0 where
    no_predicate : Predicate
    predicate : AstNode → Predicate
