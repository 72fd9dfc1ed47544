-- ===== src/Rib.antt =====
-- src/rib: the RAN information base.
pub mod SfnSf
pub mod Ue
pub mod Enb
pub mod Store
pub mod Updater
pub mod Dump
