-- ===== src/Examples.antt =====
-- Runs of the definitions at concrete inputs, among them the inputs of the repository's own tests, and
-- the theorems applied to them.
mod Names
mod Process
mod Calls
mod Log
mod Mcp
mod Ports
mod Queries
mod Cleaning
mod Api
mod Requests
mod Server
