-- ===== src/Tests.antt =====
-- Runs of the models at concrete inputs, and the theorems at inputs that meet their hypotheses.
mod Platforms
mod SingleHost
mod Files
mod Workers
mod Clusters
mod FrontEnd
mod Steps
mod Mail
mod Web
mod Sessions
mod Storage
