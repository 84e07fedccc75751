-- ===== src/Tests.antt =====
-- The theorems at concrete lists, tables and namespaces, and runs of the code.
mod SkiplistRuns
mod RbRuns
mod PidRuns
mod LevelRuns
mod SpuRuns
mod ZapRuns
mod AffinityRuns
mod TaskRuns
mod EnterRuns
mod PidLifeRuns
mod SpaceRuns
mod ReaderRuns
