-- ===== src/Eval.antt =====
-- asm/eval.c: the expression evaluator, a recursive-descent parser that computes as it reads.
pub mod State
pub mod Operators
pub mod Operand
pub mod Parser
pub mod Evaluate
pub mod Within
pub mod Terminates
pub mod Logarithm
pub mod Comparison
pub mod Tests
