-- ===== src/Tests.antt =====
-- Each law of the controller at concrete inputs.
mod Queue
mod Network
mod Rib
mod Sched
mod Central
mod Remote
mod Core
mod Flexible
mod Apps
