-- ===== src/Http1.antt =====
-- services/proxy/decrypt0rx_proxy/http1.py: the HTTP/1.1 reader and writer.
pub mod Headers
pub mod Stream
pub mod Tee
pub mod Framing
pub mod Pump
pub mod Heads
pub mod Content
