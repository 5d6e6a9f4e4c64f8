-- ===== src/Egl.antt =====
-- libEGL/egl.c: the wrapper of the vendor's EGL library.
pub mod Displays
pub mod Forwarders
pub mod Surfaces
pub mod Contexts
pub mod Images
pub mod QueryString
pub mod Plugin
pub mod Logging
