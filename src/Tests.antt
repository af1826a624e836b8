-- ===== src/Tests.antt =====
-- The theorems on concrete inputs.
mod Http1
mod Policy
mod Api
mod Ca
mod Heads
mod Certs
mod Redaction
mod Storage
mod Recorder
mod Proxy
mod Exchange
mod Auth
mod Secrets
mod Pki
mod Keys
mod Roots
mod Flows
