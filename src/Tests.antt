-- ===== src/Tests.antt =====
-- Runs of the model at concrete inputs, and each theorem at an input that meets its hypotheses.
mod Facts
mod Names
mod Database
mod Policies
mod Texts
mod Queries
mod Expressions
mod Solving
