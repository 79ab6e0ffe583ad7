-- ===== src/Tests.antt =====
-- Runs of the model on small inputs, and the theorems at concrete inputs.
pub mod Http
pub mod StringUtil
pub mod MsgQueue
pub mod Uri
pub mod Series
pub mod Sched
pub mod SubTask
pub mod Parallel
pub mod ThreadPool
pub mod Message
pub mod HttpUtil
