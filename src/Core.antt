-- ===== src/Core.antt =====
-- Source/Core/core.cpp: the screen of the program, the threads that keep it up to date, and the
-- buttons of the brightness.
pub mod Monitors
pub mod Shown
pub mod App
pub mod Brightness
pub mod Menu
pub mod Setup
pub mod Main
pub mod Program
mod Tests
