-- ===== src/Tests.antt =====
-- Runs of the modelled code on small inputs, and the theorems at inputs that meet their hypotheses.
mod Text
mod Arrays
mod Columns
mod Records
mod Handle
mod Rows
mod Settings
mod Supply
mod Spans
mod Lives
mod Links
mod Entries
