-- ===== src/Tests.antt =====
-- Runs of the models at concrete inputs, and the theorems at inputs that meet their hypotheses.
mod CacheRuns
mod CacheThreads
mod CompressionRuns
mod ConfigRuns
mod CursorRuns
mod ToolRuns
mod TokenRuns
mod TokenThreads
mod StreamRuns
mod ServerRuns
mod MainRuns
mod QueryRuns
mod NavigationRuns
mod IndexRuns
mod ManagerRuns
mod FreshRuns
