-- ===== src/Client.antt =====
-- host/apogee_ground_client.cpp: the ground client program.
pub mod Socket
pub mod Offline
pub mod Live
pub mod Mission
pub mod Program
