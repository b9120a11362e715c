-- ===== src/Qos.antt =====
-- pkg/kunpeng-qos-controller: the controller of quality of service.
pub mod Dynamic
