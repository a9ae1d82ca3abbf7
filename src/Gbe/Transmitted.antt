-- ===== src/Gbe/Transmitted.antt =====
-- The whole of `transmit`.
