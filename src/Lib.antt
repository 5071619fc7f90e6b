-- ===== src/Lib.antt =====
-- The C library under Sources/CModbus (libmodbus 3.0.1) that SwiftLibModbus calls: a client and a
-- server of the Modbus protocol over a serial line (RTU) or TCP.
--
-- The parts, and how they work together. A client builds a request (`build_request_basis` of a
-- backend), `send_msg` frames it (`send_msg_pre`: the CRC, or the length of the MBAP header), the
-- server receives it (`_modbus_receive_msg`, which ends in `check_integrity`), answers it from its
-- tables (`modbus_reply`), and the client receives the answer and compares it with the request
-- (`check_confirmation`). The backends are tables of functions, for RTU, TCP and TCP with addresses
-- of either family.
--
-- Which file models what, with the source below Sources/CModbus:
--   Prelude, Bits: shared names, tests and lemmas on numbers and bits.
--   Protocol: the constants and small types of include/modbus.h and the private headers.
--   Context: `modbus_t`, `_modbus_init_common` and the functions that set and read its fields.
--   Memory: arrays of C with their bounds, and `memcpy`; Memory/Laws and Memory/Copy: their laws.
--   Crc: `crc16` of modbus-rtu.c; below it the tables, the bitwise definition of the CRC, and
--     what the CRC detects.
--   Rtu, Tcp: the functions of modbus-rtu.c and modbus-tcp.c on frames; Backend: the calls through
--     the tables of functions; Rtu/Frame and Backend/Framing: what framing does.
--   Data: modbus-data.c. Length: the functions of modbus.c that compute lengths.
--   Link: the operations of a backend on its line, as a record that the code takes; Link/Stream:
--     a line on which bytes wait.
--   Net: the system calls of sockets, as a record that the code takes; Net/Descriptors: what they do
--     with the open descriptors; Net/Wait: the loop around `select` of both files; Net/Line: that a
--     connected descriptor with this loop is a stream.
--   Tcp/Connect, Tcp/Listen, Tcp/Stream: the functions of modbus-tcp.c that connect and close, listen
--     and accept, read and write; below them the balance of descriptors, also over a whole session of
--     a server, what a flush removes, the TCP backends as lines for the code of modbus.c, and what
--     that code receives over them.
--   Serial: the system calls for a serial port, and `struct termios`. Rtu/Settings: the settings that
--     `_modbus_rtu_connect` makes, and how they decode; Rtu/Port: the functions of modbus-rtu.c that
--     open, read, write and close the port and switch RTS and RS-485; below it what they leave
--     behind, and the RTU backend as a line.
--   New: the constructors of contexts and `modbus_free`; below it when they succeed.
--   Receive: `_modbus_receive_msg` and the backends' `check_integrity`; below it the lengths that
--     messages announce, the rounds of the loop, and what is received.
--   Listen: `modbus_receive`.
--   Confirm: `check_confirmation`; below it what it takes, and what an accepted response must be.
--   Server/Reply: `modbus_reply` and `modbus_reply_exception`, a file for each group of requests and
--     for what holds after any request;
--     Server/IoStatus: `response_io_status`; Server/Mapping: `modbus_mapping_t`; Server/Allocation:
--     how it is made and released.
--   Send: `send_msg` and `modbus_send_raw_request`. Client: the requests of a client, and
--     Values: their loops over values.
--   Fuel: the outcome of code that runs on fuel.
--   Exchange: an answer of the server on its way to the client; Client/Read, Client/Bits and
--     Client/Write: the whole call of a client. Server/Serve: the reply of the server with its sending.
--     Examples: runs at concrete messages.
--
-- How the code is read. A function of C that stores through a pointer returns the array it leaves.
-- `none`, and `undefined` of a run on fuel, is undefined behaviour: an access outside an array or
-- a failed assertion. `err` is a return of -1 with `errno`. A value stored in an array is reduced
-- to the width of its elements; the contents of an array that is not initialised are arbitrary.
-- Arguments of type `int` that the protocol sends as 16 bits are numbers that are not negative.
-- The arrays for messages have 260 bytes, MAX_MESSAGE_LENGTH, those for short requests 12,
-- _MIN_REQ_LENGTH. `_modbus_receive_msg` runs on fuel; each of its rounds reads at least one byte,
-- so that as many rounds as the message has bytes are enough. The loop of `send_msg` also runs on
-- fuel: in the recovery mode it ends only when `send` succeeds. The loop around `select` has a round
-- for each signal that interrupts it and one more, and that of `_modbus_tcp_flush` one for each 260
-- bytes that wait and one more; the backends in Tcp/Stream/Line and Rtu/Port/Line give them that
-- much.
--
-- Not modelled: what is behind the system calls, `malloc` and `free`, which are records that the code
-- takes, and the laws named there are what their documentation says; strlcpy, a copy of another
-- library's function, which the constructors take; the flags of sockets and descriptors; the bits
-- that encode the settings of termios; the branches for Windows, and the handler of SIGPIPE on BSD;
-- the texts and debug output; the Swift class ModbusDevice.
pub mod Prelude
pub mod Bits
pub mod Memory
pub mod Crc
pub mod Protocol
pub mod Context
pub mod Rtu
pub mod Net
pub mod Serial
pub mod Tcp
pub mod Backend
pub mod New
pub mod Data
pub mod Examples
pub mod Length
pub mod Fuel
pub mod Link
pub mod Receive
pub mod Confirm
pub mod Exchange
pub mod Listen
pub mod Send
pub mod Values
pub mod Client
pub mod Server
