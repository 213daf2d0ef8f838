-- ===== src/Admin.antt =====
-- The administration of the front end, frontend/admin/admin_service.cc: `Pages` is the dashboard, `Tablets` are the pages of workers and tablets, and
-- `Control` is what switches servers on and off.
pub mod Pages
pub mod Tablets
pub mod Control
