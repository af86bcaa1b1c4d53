-- ===== src/Panel.antt =====
-- panel/src: the calendar of the clock applet.
pub mod Calendar
mod Tests
