-- ===== src/Cypher.antt =====
-- engine/src/cypher/lexer.rs: the tokens of a query.
pub mod Scan
pub mod Lexer
pub mod Progress
pub mod Tokens
pub mod Ast
pub mod Eval
pub mod Operations
pub mod Evaluator
pub mod Reads
pub mod Scopes
pub mod Callable
pub mod Defined
pub mod Truths
pub mod Quantifiers
mod Checks
mod EvalChecks
