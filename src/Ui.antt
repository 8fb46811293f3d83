-- ===== src/Ui.antt =====
-- internal/ui: the parts of the window that hold a state of their own.
pub mod Notifications
pub mod Executor
pub mod Table
