-- ===== src/Api.antt =====
-- pkg/api: the client of one loxilb instance and the models that it sends.
pub mod Client
pub mod LbModel
pub mod Health
pub mod Firewall
pub mod Bgp
