-- ===== src/Readonly.antt =====
-- readonly_query.py: the governed SQL tool, one module for each arm.
pub mod Cell
pub mod Reason
pub mod Replay
pub mod Sqlglot
pub mod Analyze
pub mod Scope
pub mod RowBound
pub mod Keys
pub mod Execute
pub mod Run
