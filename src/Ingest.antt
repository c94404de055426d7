-- ===== src/Ingest.antt =====
-- src/ingest: the path of a request from the wire to the store's writer.
pub mod Convert
pub mod Receiver
pub mod Handler
pub mod Sniff
