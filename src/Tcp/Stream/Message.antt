-- ===== src/Tcp/Stream/Message.antt =====
-- A message at a connected socket, from the system calls to the array of `_modbus_receive_msg`.
