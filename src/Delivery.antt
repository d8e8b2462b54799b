-- ===== src/Delivery.antt =====
-- tools/delivery/delivery/run: the delivery's stages (`Stage`), its saved state (`State`),
-- what a stage reports and what the machine answers (`Verdict`), the state machine (`Machine`) and what each stage runs on (`Rules`).
pub mod Stage
pub mod State
pub mod Verdict
pub mod Machine
pub mod Rules
pub mod Invoke
