-- ===== src/Core/Shown.antt =====
-- What the labels show after a round of the threads of core.cpp.
pub mod Display
pub mod Texts
pub mod Colors
