-- ===== src/Log.antt =====
-- Fish/base/log and source/base/log: the logger, its buffers, its thread, its files and numbers.
pub mod Buffer
pub mod LogThread
pub mod Decimal
pub mod LogFile
pub mod Logger
