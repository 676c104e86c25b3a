-- ===== src/Tests.antt =====
-- Runs of the model on concrete inputs, and an instance of each theorem that has hypotheses.
mod Format
mod Codec
mod RingStore
mod AsyncWriter
mod Append
mod Storage
mod Reader
mod Formatter
mod Opener
mod Durable
mod RecordProfile
