-- ===== src/Message.antt =====
-- message.go: headers, the envelope and the typed header values.
pub mod Headers
pub mod Values
pub mod Envelope
