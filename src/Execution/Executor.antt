-- ===== src/Execution/Executor.antt =====
-- bot/execution/paper_executor.py: `PaperExecutor`.
mod State
mod Book
mod Reserve
mod Execute
unfoldable pub use State.*
unfoldable pub use Book.*
unfoldable pub use Reserve.*
unfoldable pub use Execute.*
