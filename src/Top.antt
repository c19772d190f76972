-- ===== src/Top.antt =====
-- internal/capture/procps/linux/top.c: the parts of top that compute. What libproc2 and the terminal
-- deliver comes in as arguments.
pub mod Forest
pub mod Text
pub mod Line
pub mod Scroll
pub mod Filters
pub mod Screen
pub mod Frame
pub mod Columns
pub mod Fields
pub mod Inspect
pub mod Utf8
