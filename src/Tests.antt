-- ===== src/Tests.antt =====
-- Tests of the definitions at inputs taken from the tests of the source, and the theorems at inputs
-- that meet their hypotheses.
mod Policies
mod Packets
mod Agents
mod Gateway
mod Reports
mod Interleavings
mod Proxies
mod Links
mod Startups
mod Heads
mod Frames
mod Moments
mod Trail
