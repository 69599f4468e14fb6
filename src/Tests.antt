-- ===== src/Tests.antt =====
-- Runs of the model at concrete inputs, one module for each part of the program.
mod Program
mod Requests
mod Bodies
mod Connections
mod Setup
mod Servers
mod Stops
mod Ports
