-- ===== src/Windows.antt =====
-- libEGL/platforms: the native windows that EGL draws into, each a class over the one of
-- common/nativewindowbase.cpp.
pub mod Base
pub mod Fbdev
pub mod Hwcomposer
pub mod Dispatch
pub mod Settings
pub mod Plugin
