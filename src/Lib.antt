-- ===== src/Lib.antt =====
-- chatbox is a chat program for the terminal: a server with rooms (src/chat/chat_server.h), a
-- session per connection (src/chat/client_session.cpp), a text protocol between client and server
-- (src/protocol/protocol.h, src/protocol/protocol.cpp), and a client with a curses interface. This
-- library models the protocol, the server's state and the handler of a session's lines, the
-- client's connection and what it does with the server's messages, the state that the screen
-- draws, the commands, the models behind the screen's line, history and scrollback, the
-- certificates that a client trusts, the directory of servers, and the command line and the
-- consoles of the dedicated server.
--
-- Protocol. A message is serialized to fields with '|' between them; the payload is written in
-- Base64 as one line. Protocol/Base64 and Protocol/Frame model encode_frame and decode_frame;
-- Protocol/Decimal the numbers in a payload (std::to_string, std::from_chars); Protocol/Fields
-- split_fields, rest_after_delimiter and rest_after_command; Protocol/Rules the tests on
-- nicknames, texts, room names, topics and hexadecimal digits; Protocol/Client and Protocol/Server
-- the two message types, serialize, parse_client_message and parse_server_message; Protocol/Codec
-- the four functions between messages and frames. Protocol/Outcome has the result type, the error
-- codes and the limits.
--
-- Server. Chat/State has the state of ChatServer, ClientSession and Room (src/chat/room.h) as
-- records, with what the server does to the outside as a list of effects. Chat/Rooms models the
-- map of rooms; Chat/Delivery the broadcasts, the lists and the private messages; Chat/Movement
-- the ways into and out of rooms; Chat/Admin topics, kicks, bans and identities; Chat/Quota the
-- rate limit; Chat/Session the handler read_loop; Chat/Startup the loading of what the storage
-- holds (StoredRoom of src/storage/storage.h); Chat/Run every call that changes a server, as a
-- step relation. A handler takes the server's state to a new one and says whether the session
-- reads on. Each call of the source is one step, as the sessions run on the executor of one
-- server. The host's and the operator's calls run on other threads, and the source locks the map
-- of rooms, not the whole of a call (disconnect reads and clears the session's room outside
-- rooms_mutex_): interleavings inside a call are not modelled.
--
-- User's side. App/State models src/app/app_state.cpp. App/Client models ChatClient of
-- src/chat/chat_client.h: the closures posted to the executor and the queue of writes;
-- App/Client/Connect the attempt to connect, with what the resolver, the socket and the TLS
-- library answer as arguments; App/Client/Receive the handler of a line and of a failed read. The
-- client's field app stands for the globals of app_state.cpp. App/Commands models
-- src/app/commands.cpp, with split and join_fields of src/common/utils.cpp in Helpers: a command
-- acts on the screen's state, and on the client's or the server's state, whose effects on the
-- screen are played.
--
-- Network. Network/Trust models normalize_fingerprint, the trust store and verify_peer of
-- src/network/tls.cpp, with the files as a function from paths and what OpenSSL says of a
-- certificate as an argument. Network/Fields models src/network/server_browser.cpp and std::stoi;
-- Network/Directory the class ServerBrowser of src/network/server_browser.h, and
-- Network/Directory/Client the class ServerBrowserClient, whose connection is an argument;
-- Network/Invite src/network/invite.cpp.
--
-- Operator's side. App/Dedicated models the command line of src/app/dedicated_server.cpp up to the
-- check of TLS in run_dedicated_server_config; App/Console its two consoles, which act on the
-- server's state and on the directory's.
--
-- Screen. Terminal/Editor, Terminal/History and Terminal/Scroll model LineEditor, InputHistory and
-- Scrollback of src/ui/terminal_model.cpp.
--
-- Text is a list of byte values. The tests of <cctype> are those of the C locale; std::isspace and
-- the like are written out. A set of sessions or of strings is a list in rising order; the order
-- of two sessions in a set of pointers is that of their numbers. Numbers of rooms wrap at 2 ^ 64
-- as in the source. The printing of a number takes the number itself as fuel, which is more than
-- its digits; the loops of erase_word take the cursor's position as fuel, and each turn moves the
-- cursor back; the binary search of std::lower_bound takes the number of lines. Sizes are taken to
-- fit the int that Scrollback casts them to. Times are in nanoseconds of the steady clock; those
-- of the directory count from 2 ^ 63 nanoseconds before the epoch of the system clock. The loop
-- that reads a directory's responses has the source's bound of 1000 as fuel.
--
-- Outside the program are the check of a signature and the signing of a challenge
-- (src/common/utils.cpp, by a library), parameters of the handlers; the clock's readings and the
-- random challenge, which come with a line; and the transport, TLS, the storage in SQLite, the log
-- and the interactive host's screen, which are effects. The source reaches them through
-- src/network/transport.h, src/network/tls.cpp, src/storage/storage.h, src/storage/chat_log.h and
-- src/app/app_state.h.
--
-- Not modelled: the legacy files of bans and identities, the accept loop and the stopping of the
-- server, the write queue of a session, the wrapping of text to the screen's width (mbrtowc and
-- wcwidth are the platform's), the forms and menus (src/ui), preferences
-- (src/storage/preferences.cpp), the thread that publishes a server in a directory, the making of
-- certificates, and the start-up of the dedicated server behind its checks (storage, port mapping,
-- threads).
--
-- Tests has the theorems at concrete inputs.
pub mod Common
pub mod Protocol
pub mod Helpers
pub mod Chat
pub mod App
pub mod Terminal
pub mod Network
pub mod Tests
