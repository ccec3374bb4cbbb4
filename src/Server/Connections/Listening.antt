-- ===== src/Server/Connections/Listening.antt =====
-- The connection thread behind the set-up of its socket.
