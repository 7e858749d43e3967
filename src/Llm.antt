-- ===== src/Llm.antt =====
-- internal/llm/gemini.go: the JSON value in a model's text (`ExtractJSON`), the streamed answer
-- (`Client.Stream`) and the retries of a request (`doWithRetry`, `openStream`).
pub mod Extract
pub mod Stream
pub mod Retry
pub mod Generate
pub mod Redact
