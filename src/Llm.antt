-- ===== src/Llm.antt =====
-- src/execution_accelerator/llm: calls of a language model, with a redacted prompt, one retry and a
-- budget for each ticket.
pub mod Redact
pub mod Call
pub mod Budget
pub mod Sent
pub mod Clean
