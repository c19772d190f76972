-- ===== src/Openj9.antt =====
-- internal/capture/ycattach/posix/jattach_openj9.c: attaching to an OpenJ9 JVM.
pub mod Translate
pub mod Unescape
pub mod Wire
pub mod Files
pub mod Session
