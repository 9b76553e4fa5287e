-- ===== src/Lib.antt =====
-- A model of the Modbus server and the theorems that make it correct.
--
-- The repository has two programs with the same task: a parent process sends JSON commands on the
-- standard input, and the server puts the values into Modbus tables, which it serves to TCP clients
-- and on a serial line. The modular program is under src/: src/main.c, the settings (src/config),
-- the commands (src/json), the adapters for the two transports (src/adapters), the helpers
-- (src/utils), and src/core. The program in one file is json-modbus-server.c.
--
-- ByteOrder: src/utils/byte_order.c. Backend: src/adapters/modbus_backend.c, the structure that all
-- adapters get by reference. JsonCommand: src/json/json_command.c. Config:
-- src/config/config_loader.c, where the buffer of the device name is a list of 64 bytes. TcpAdapter
-- and RtuAdapter: src/adapters/tcp_adapter.c and rtu_adapter.c. ServerController:
-- src/core/server_controller.c, which holds a second version of the serial adapter. Platform:
-- src/utils/platform.c, the branch for Windows in Platform.Windows. Main: src/main.c over the
-- structure of src/core/server_controller.h. UnitTestServer: unit-test-server.c, with its special
-- requests and its loop in child modules. Legacy: json-modbus-server.c, with its words, settings,
-- commands, transports, main loop and run_server in child modules; where its global variables
-- correspond to fields of the structures above, the same records hold them. Each function of the
-- source is a definition with its name; a long function is cut into definitions at its branches.
--
-- Prelude has the shared helpers. Clib has what C takes for granted: a read or write outside an
-- array, a null pointer and an overflow of int are faults, and a conversion to a narrower type
-- keeps its wrap-around. Machine has the state in which the adapters run: the backend, the outside
-- world, and a log of the descriptors and contexts that are handed out and given back. The log is
-- an observation that no function reads. Main keeps the calls of src/main.c in the same way.
--
-- cJSON, libmodbus and the system calls are not in the repository, or are copies of other projects:
-- they are the records Cjson and Modbus of Foreign, parameters of every definition that calls them,
-- over an unknown state of the outside world. Samples has small concrete ones for the examples. Of
-- cJSON it is assumed, where a theorem says so, that every string item has a text. Laws of
-- libmodbus are assumed, where a theorem says so: accepting a client does not change the number of
-- the listening socket, as in libmodbus 3.1; answering a request does not take the tables away; new
-- tables have the size that is asked for, and keep it; receiving keeps the length of the buffer and
-- answers -1 with EINVAL for a null context; the header of a context has seven bytes or one. Of
-- malloc it is assumed that memory, where it is given, has the size asked for.
--
-- The loops over the ten slots and over the words of a value are structural recursions, with the
-- number of rounds left where the source counts. The main loop of json-modbus-server.c is a
-- recursion on the list of what its rounds find: the answer of select, the ready descriptors, the
-- line, and the moments at which a signal has come: before the step that first tests what the
-- signal changes. The loop of run_server is one on the list of its rounds, each with the signal
-- that may come with it, and that of unit-test-server.c is one on a bound of the calls of
-- modbus_receive; a run that reaches the end of its list or bound is told apart from one that
-- returns.
--
-- Not modelled: the logging and what unit-test-server.c prints; the functions of
-- server_controller.h, which src/main.c calls and which are defined nowhere; a signal in the middle
-- of one of the five steps of a round of json-modbus-server.c, which counts at its end, and one in
-- the middle of a round of run_server; the copy of cJSON and the headers of libmodbus, which are
-- other projects.
pub mod Prelude
pub mod Clib
pub mod ByteOrder
pub mod Foreign
pub mod Backend
pub mod JsonCommand
pub mod Config
pub mod Machine
pub mod TcpAdapter
pub mod Platform
pub mod RtuAdapter
pub mod ServerController
pub mod Main
pub mod UnitTestServer
pub mod Legacy
pub mod Samples
