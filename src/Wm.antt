-- ===== src/Wm.antt =====
-- platform/X11/wm/src: the window manager's virtual desktops and focus.
pub mod Client
pub mod Focus
pub mod Desktops
pub mod Windows
pub mod Control
pub mod Switcher
mod Tests
pub mod Placement
