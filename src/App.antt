-- ===== src/App.antt =====
-- internal/app/app.go: what joins the parts of the program.
pub mod Settings
pub mod Tasks
pub mod Fresh
