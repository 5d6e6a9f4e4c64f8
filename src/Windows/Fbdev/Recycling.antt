-- ===== src/Windows/Fbdev/Recycling.antt =====
-- A reallocation and the references to the buffers before and behind it.
