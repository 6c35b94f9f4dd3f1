-- ===== src/Tests.antt =====
-- The theorems at concrete inputs, on a bench of a simple world and application, and tests of the
-- definitions.
mod Bench
mod SecurityCases
mod FlashCases
mod ServiceCases
mod ServerBench
mod AccessCases
mod ServerCases
mod LifeBench
mod LifeCases
mod ClearCases
mod RunCases
mod TargetBench
mod ProgrammingCases
mod RoutineCases
mod PowerCases
