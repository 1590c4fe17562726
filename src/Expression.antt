-- ===== src/Expression.antt =====
-- The expression engine of src/expression_engine.
pub mod Characters
pub mod Lexer
pub mod Folding
