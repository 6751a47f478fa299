-- ===== src/Lib.antt =====
-- Course timetable service: a TCP server that answers queries on courses and lets administrators
-- change them, and its client (driver/, programs/, third_party/openssl/src/).
--
-- A client sends a command with a list of fields; the server looks the command up in a table, checks
-- the role of the session, runs the handler over two repositories, and answers with a code and a text.
-- Every message travels in a frame: a header of 56 bytes with version, length, IV and MAC, and a body
-- that is a serialized protobuf message under AES-256-CBC.
--
-- Which file models what:
--   Base       shared names: lists and tests on native numbers, strings as lists of bytes, integers.
--   Error      driver/include/error.h.
--   CmdType    driver/include/cmd_type.h.
--   Number     std::stoi, std::to_string and the printing of numbers, as the program uses them.
--   Wire       Course of driver/include/database.h; serialize_courses and the list of administrators
--              in programs/Server/src/cmdreg.cpp; split, parse_courses and the reading of that list in
--              programs/Client/src/cmdreg.cpp.
--   Repository the operations of CourseRepository and AdministratorRepository that the handlers call
--              (driver/include/database.h), as records over an abstract state.
--   Dispatch   driver/include/CmdHandler.h, and register_handler and dispatch of
--              driver/src/CmdHandler.cpp. A handler takes the message and the context (session and
--              repositories) and returns an outcome and the new context.
--   Server     the handlers and register_all_server of programs/Server/src/cmdreg.cpp: Login, Query,
--              CourseAdmin, AdminAccounts, Register; what is proved of them in Responses, Access,
--              Session, OwnAccount and Pages.
--   Server.Connection  send_response_s and send_response_c of driver/src/CmdHandler.cpp and
--              handle_client of programs/Server/src/server_main.cpp, with Trace and Ends for what is
--              proved of the loop.
--   Server.Process  the accept loop and the shutdown of programs/Server/src/server_main.cpp: its state
--              is the stage of the main thread and the global variables, its steps those of the main
--              thread and signals in any order; Owned for the sockets that are open,
--              Shutdown for what follows a signal.
--   Server.Main  main of the same file up to the loop and from its end on, with the handlers of the
--              signals; Leave, Balance and Stops for what it leaves open.
--   Server.Threads  the threads of the clients, each with its session, over the shared repositories:
--              a relation of steps, one request a step, in any order; Sessions for what is proved.
--              Server.Kept says what a request keeps of the repositories.
--   WinsockGuard  driver/include/winsock_guard.h and driver/src/winsock_guard.cpp.
--   Log        driver/include/log.h and driver/src/log.cpp.
--   Platform   what is taken from outside: the system's send and recv, OpenSSL's calls, the generated
--              protobuf code, the key file; and records that state their documented behaviour.
--   Socket     socket_send and socket_recv of driver/src/SocketHandler.cpp.
--   Crypto     the wrappers of third_party/openssl/src/openssl.cpp.
--   Protocol   driver/src/protocol.cpp: send_body, both Package_send, Package_receive.
--   PasswordHash  driver/src/password_hash.cpp: make, verify, is_encoded and their helpers; what is
--              proved of the texts stands in Hex and Verify.
--   Sqlite     SQLite's calls as the program uses them, a parameter of the modules below.
--   Database   driver/src/database.cpp, over the file system and the calls that open and close a
--              connection; Owned for what it leaves open, Opened for what it holds.
--   CourseStore  driver/src/db_courses_handle.cpp over SQLite's calls, an instance of Repository:
--              Statements has its SQL texts, Queries what only reads; Opening the
--              constructors, open and close; Transactions, Queries.Kept, Queries.Held, Queries.Pages and
--              Stored what is proved of it, and Server.Stored what follows for the handlers.
--   AdminStore driver/src/db_administrators_handle.cpp over SQLite's calls, an instance of Repository,
--              and the default account of programs/Server/src/server_main.cpp; Opening has the
--              constructors, open and close; Accounts, Logins and its children who can log in, and Held
--              what keeps the connection.
--   Client     programs/Client/src/cmdreg.cpp: send_and_recv and the calls of the client; Requests and
--              Exchange for what the server makes of them.
--   Connect    the ownership of a socket in driver/include/SocketHandler.h and
--              driver/src/SocketHandler.cpp; programs/Client/src/connect_to.cpp and
--              programs/Server/src/listener.cpp, over Winsock's calls; Owned and Moves for the sockets
--              that are open.
--   Tsv        the lines of fields of programs/Client/src/client_main.cpp.
--   Bridge     BridgeSession and run_bridge of programs/Client/src/client_main.cpp: the state is the
--              socket, the process and the printed text; Answers for what is proved.
--   Repl       run_repl of the same file on the same state; Command, Words and Same for what is
--              proved.
--   ClientMain main of the same file; Closed for what it leaves open, with Bridge.Sockets,
--              Repl.Sockets and Connect.Held; Socket.Kept, Protocol.Kept and Client.Kept for what
--              the transfers keep.
--   Examples   concrete platforms and repositories for the tests.
--
-- Strings are lists of bytes. The two socket loops run on fuel, one round more than there are bytes to
-- move; every round moves one byte at least, so this is enough, and a separate error value, which no
-- code of the program returns, says that the fuel ran out. The loop of handle_client runs on fuel too,
-- and returns an option; one round more than there are bytes to come is enough.
--
-- Not modelled: what a request does while another one runs (a step of a thread is a whole request,
-- also where the threads share a connection to the database), the lines that print_log writes to
-- the console, which in the client shares the output of the bridge and of the shell, and the clock
-- in them, what SQL statements do beyond SQLite's transactions, the rows of accounts and the
-- pieces of an ordered SELECT, that sqlite3_bind_text fails in a write (the source does not test
-- its answer), the accessors of Database, and the scripts that import data.
pub mod Base
pub mod Error
pub mod CmdType
pub mod Number
pub mod WinsockGuard
pub mod Log
pub mod ClientMain
pub mod Wire
pub mod Repository
pub mod Dispatch
pub mod Sqlite
pub mod Server
pub mod Platform
pub mod Socket
pub mod Crypto
pub mod Protocol
pub mod Connect
pub mod Database
pub mod CourseStore
pub mod PasswordHash
pub mod AdminStore
pub mod Tsv
pub mod Client
pub mod Bridge
pub mod Repl
pub mod Examples
