-- ===== src/Tests.antt =====
-- Runs of the models on concrete data, and the theorems applied to it.
mod Samples
mod Clocks
mod Configuration
mod Children
mod Loop
mod Certificates
mod Boot
mod Proxies
mod Wires
mod Handshakes
mod Helpers
mod Polarssl
mod Routes
mod Buses
mod Chromium
mod Connections
