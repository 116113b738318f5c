-- ===== src/Tests.antt =====
-- Runs at concrete inputs, on a platform that computes.
mod Loopback
mod WireRuns
mod SenderRuns
mod ReceiverRuns
mod ThreadRuns
mod ApiRuns
mod SystemRuns
