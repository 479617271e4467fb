-- ===== src/Lib.antt =====
-- modbus_gateway passes Modbus requests between two sides. Slaves take requests from the outside: a
-- TCP server with one connection for each of its clients, or a serial line. Masters pass them on to
-- devices: to a TCP server, or on a serial line. All of them are actors of the exchange library, which
-- knows them by ids and hands messages to them. A slave asks the router for the actor of a request's
-- unit id and sends the request there; the master answers to the id that is in the message.
--
-- Which module models which part (paths from the root of the repository):
--   Base            helpers: names of the libraries, Boolean tests on numbers, lists
--   Synchronized    src/common/include/common/synchronized.h
--   Asio, Modbus, Exchange, and Config.Json
--                   the libraries that are called (contrib/, submodules without code here): records of
--                   what is called, and `Laws` with the documented behaviour that theorems rely on
--   LimitQueue      src/common/include/common/limit_queue.h
--   Message         src/message: ModbusMessageInfo, ModbusMessage, ClientDisconnectMessage
--   Router          src/transport/router.cpp: Route is `route`, Set is `set_route`
--   Transport       the effects of the actors, and the loop of both masters that drops expired requests;
--                   Overlap has the handlers of both kinds of slave on several threads
--   TcpClient       src/transport/modbus_tcp_client.cpp
--   RtuMaster       src/transport/modbus_rtu_master.cpp
--   TcpConnection   src/transport/modbus_tcp_connection.cpp
--   RtuSlave        src/transport/modbus_rtu_slave.cpp
--   TcpServer       src/transport/modbus_tcp_server.cpp
--   SerialOptions   src/transport/rtu_options.cpp
--   Exception       the exceptions and the result of code that may throw
--   Decimal         std::to_string
--   Config          src/config: ValueType, Types, TracePath, Convertors, Extract (what a reader is),
--                   Keys, Scalars, Rtu, Ranges, Transports (the readers), Reader (Config, Validate);
--                   Print is the reference for the readers: a configuration as a document, as the
--                   README describes it;
--                   Validators has src/config/validators.cpp, which is not part of the build
--   Gateway         src/modbus_gateway.cpp: MakeMasters, MakeRouter, MakeSlaves; Startup has
--                   ModbusGateway up to the start of the slaves
--   Network         all actors on the exchange, in any order of events; Launch has the actors that
--                   ModbusGateway makes and starts
--   Main            src/main.cpp and src/command_line, with the texts and the exit codes
--   Journey         a request's way through connection, router and client, and back; Line has the way
--                   from one serial line to another
--   Examples        the theorems at concrete inputs, with small instances of the libraries
--
-- A handler of an actor is a function from the actor's state to its new state and a list of effects in
-- their order: operations of asio that it starts or cancels, and messages to the exchange. The name is
-- that of the method (StartMessageTaskUnsafe is `start_message_task`, QueueProcessUnsafe is
-- `queue_process`, MakeResponse is `make_response`); a completion handler is named after its operation
-- (`on_connect`, `on_send`, `on_receive`, `on_wait`, `on_read`, `on_write`). Its arguments are what the
-- environment decides: the error code, the bytes and their number, the readings of the clock, and
-- whether the exchange still exists. A handler is one step: those of the masters and the server run
-- under the actor's mutex, and those of a connection and of an RTU slave share only syncRequestInfo_,
-- which has its own: Transport.Overlap cuts these at the ends of an access to it, and at the test and the
-- reset within. The modules World, Histories and Order put the steps of one actor in any order, and
-- Network those of all. In the worlds of the masters an operation can end only while it is outstanding,
-- which `Pending` counts; elsewhere any sequence of events is allowed.
--
-- In Network a message waits in the mail until an event hands it to the actor that then has its id; no
-- order is assumed, and a message to an id without an actor is lost. Every operation may end at any time
-- and in any way there, which allows more than asio does. The destruction of the exchange and the Stop of
-- a server do not happen during `context->run()`.
--
-- Code that reads the configuration is a function of the path of keys. It returns a result and the path,
-- also when it throws, as the constructor and the destructor of TraceDeep change the path in place. An
-- exception holds the path and the key at which it was thrown.
--
-- Numbers are natural numbers. A transaction id and the unit id of the loop in MakeRouter wrap round
-- after the largest value of their type, which is a parameter. The loop of MakeRouter runs on fuel,
-- `range_fuel`, which is two more than that value: a loop over a range that ends below the value makes at
-- most as many rounds as the value, and one more test. A read or a write past the end of the table, and
-- a null buffer that is read, are `undefined` or `undefined_behaviour`. Times are nanoseconds of the
-- steady clock, and a timeout in milliseconds is converted; the products and sums are not bounded, which
-- agrees with the 64-bit counts of std::chrono up to 292 years. A timeout is the unsigned number in the
-- file; from 2 ^ 63 on it stands for the negative count that std::chrono::milliseconds makes of it,
-- which is over when it begins.
--
-- Not modelled: the log, but for the exceptions of remote_endpoint() in its lines, which `Peer` decides:
-- such an exception leaves the handler, `escapes`, and ends the program, so that events behind it in a
-- sequence belong to no run; the signals that end the process; the threads of the io_context except as
-- the order of the handlers and in Overlap. A message's buffer is shared by pointer in the source; the
-- masters change it while only the current message refers to it, and the model writes the changed buffer
-- into that message. `System` in Gateway stands for the constructors that open a port, which call
-- SetOptions on it, or bind an address; it gives the text of the exception that they throw, if any.
pub mod Base
pub mod Synchronized
pub mod Asio
pub mod Modbus
pub mod Exchange
pub mod LimitQueue
pub mod Message
pub mod Router
pub mod Decimal
pub mod Exception
pub mod Config
pub mod Transport
pub mod TcpClient
pub mod RtuMaster
pub mod TcpConnection
pub mod RtuSlave
pub mod TcpServer
pub mod Journey
pub mod SerialOptions
pub mod Gateway
pub mod Network
pub mod Main
pub mod Examples
