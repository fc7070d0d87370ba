-- ===== src/Master/Shell/Waiting.antt =====
-- What comes of a task that the shell submits.
