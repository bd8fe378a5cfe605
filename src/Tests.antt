-- ===== src/Tests.antt =====
-- Concrete runs of the models.
pub mod OnMaster
pub mod OnDisk
pub mod OnNodes
pub mod OnOps
pub mod OnReplicas
pub mod OnSessions
pub mod OnDelivery
pub mod OnMails
pub mod OnFrontend
pub mod OnPages
pub mod OnWays
