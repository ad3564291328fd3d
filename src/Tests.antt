-- ===== src/Tests.antt =====
-- Runs of the code on concrete game servers, and the theorems at concrete inputs.
mod Platform
mod Live
mod Handlers
mod Start
mod Passes
mod Routes
mod Life
mod Whole
mod Up
mod Race
mod Objects
mod Options
