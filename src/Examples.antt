-- ===== src/Examples.antt =====
-- Runs on concrete inputs, and each theorem at an input that exercises the code.
mod Running
mod PathExamples
mod DenylistExamples
mod CatalogExamples
mod ScanExamples
mod DiffExamples
mod LibraryExamples
