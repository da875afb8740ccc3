-- ===== src/Split/Words.antt =====
-- What `shl_strsplit_n` returns, against the words of a string.
