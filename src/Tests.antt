-- ===== src/Tests.antt =====
-- The development run on small inputs, and its theorems applied to them.
pub mod Toy
pub mod Program
pub mod Runs
pub mod Witnesses
pub mod Server
pub mod Arms
pub mod Pool
pub mod Tasks
pub mod Jwt
pub mod Process
