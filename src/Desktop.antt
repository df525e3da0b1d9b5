-- ===== src/Desktop.antt =====
-- The desktop of pageant/desktop_windows.go: the tray icon, the queue of notifications and the
-- window that lists keys.
pub mod Buffer
pub mod State
pub mod Layout
pub mod Tray
pub mod Keys
pub mod Window
pub mod Menu
pub mod Messages
pub mod Sound
pub mod Notices
pub mod Life
pub mod Rows
pub mod Fits
