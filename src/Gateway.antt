-- ===== src/Gateway.antt =====
-- pkg/agent/manager/gatewayapi: the managers of gateway classes, gateways, and TCP, UDP and HTTP routes.
pub mod Types
pub mod KubeLaws
pub mod Fixture
pub mod Route
pub mod Manager
pub mod HttpRoute
pub mod GatewayClass
