-- ===== src/Virtual/Tests.antt =====
-- The virtual allocator over sixteen frames.
