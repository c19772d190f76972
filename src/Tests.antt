-- ===== src/Tests.antt =====
-- Runs of the model on concrete inputs, and each theorem at an input that meets its hypotheses.
mod Sessions
mod Texts
mod Vmstat
mod Devices
mod Windows
mod Top
mod Scroll
mod Filters
mod Screen
mod Layout
mod Utf8
