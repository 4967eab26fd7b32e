-- ===== src/Config.antt =====
-- pkg/controller/cloudprivateipconfig: the CloudPrivateIPConfig controller.
pub mod Object
pub mod Op
pub mod Client
pub mod Sync
pub mod Events
pub mod Safety
pub mod Progress
