-- ===== src/Gui.antt =====
-- Source/Libs/Gui/gui.cpp: the widgets of the screen, as the calls of LVGL that they make.
pub mod Calls
pub mod Widgets
pub mod Locking
pub mod Table
pub mod Use
pub mod Styles
pub mod Start
pub mod Grid
pub mod Look
pub mod Canvas
pub mod Threads
pub mod Tests
