-- ===== src/Compare.antt =====
-- gobackend/compare: the worker that makes the results, and the HTTP service.
pub mod Worker
pub mod Convert
pub mod Service
