-- ===== src/Tests.antt =====
-- Runs of the definitions on concrete inputs, and the theorems at inputs that meet their hypotheses.
pub mod Strings
pub mod ThreadTable
pub mod Pthread
pub mod Stdio
pub mod Helpers
pub mod Sysconf
pub mod SystemProperties
pub mod Startup
pub mod Egl
pub mod EglCalls
pub mod Plugins
pub mod Gles
pub mod Windows
pub mod Hwcomposer
