-- ===== src/Tests.antt =====
-- Runs of the model at concrete inputs.
mod Toy
mod Ready
mod Loop
mod Handlers
mod Transfers
mod Refusals
mod Messages
mod Paths
mod Exchange
mod Ends
mod Download
mod Upload
mod Login
mod Menu
