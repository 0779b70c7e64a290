-- ===== src/Tests.antt =====
-- Tests of the definitions at concrete inputs, and an instance of each theorem that has hypotheses.
mod Sample
mod Requests
mod Sessions
mod Shares
mod Config
mod Tags
mod Uploads
