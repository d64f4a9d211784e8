-- ===== src/Routes.antt =====
-- linux_net/routes: the HTTP endpoints.
pub mod Device
