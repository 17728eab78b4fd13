-- ===== src/Contexts.antt =====
-- goodies/basic-contexts/basic_contexts.c: contexts with handlers of their own.
pub mod Memory
pub mod MemorySink
pub mod Stdio
pub mod StreamPack
pub mod StreamSink
pub mod Life
pub mod StreamLife
pub mod Unix
pub mod Barrier
pub mod FilePack
pub mod FileSink
pub mod FileRoom
pub mod FileHandler
pub mod FileLife
pub mod Refill
pub mod StreamUnpack
pub mod StreamSource
pub mod StreamEnd
pub mod FileUnpack
pub mod FileReading
pub mod FileOutcome
pub mod FileSource
pub mod FileInput
pub mod FileGuard
