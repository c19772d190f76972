-- ===== src/Vmstat.antt =====
-- internal/capture/procps/linux/vmstat.c: the vmstat report. What libproc2 reads from the kernel
-- comes in as arguments; what is printed is a list of lines.
pub mod Words
pub mod Options
pub mod Rows
pub mod Devices
