-- ===== src/App.antt =====
-- core/core.h: `App`.
mod Tests
pub mod Names
pub mod Parse
pub mod Output
pub mod Report
pub mod Check
pub mod Construct
use task_bench.Base.{ℕ, Bool, List}
use task_bench.Base.Int.{ℤ}
use task_bench.Graph.{TaskGraph}

pub record App (D : Type 0) : Type 0 where
  pub graphs : List (TaskGraph D)
  pub nodes : ℤ
  pub verbose : ℤ
  pub enable_graph_validation : Bool
