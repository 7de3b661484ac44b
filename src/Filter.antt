-- ===== src/Filter.antt =====
-- internal/query: the $filter expression, from text to tokens to a syntax tree.
pub mod Token
pub mod Chars
pub mod Cursor
pub mod Literals
pub mod Keywords
pub mod Tokenizer
mod TokenTests
pub mod Ast
pub mod Values
pub mod Parser
mod ParserTests
mod Examples
pub mod Grammar
pub mod Sound
