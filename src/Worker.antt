-- ===== src/Worker.antt =====
-- src/services/worker/worker: the consumer of a job stream.
pub mod Consumer
mod Examples
