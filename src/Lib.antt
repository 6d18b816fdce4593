-- ===== src/Lib.antt =====
-- mcp.cpp: the core of a C++ library for the Model Context Protocol, and what is proved of it.
--
-- The program exchanges JSON-RPC messages between a client and a server. A transport hands parsed
-- messages to a `Session`, whose `MessageRouter` runs the handlers and keeps the calls that wait for
-- a response; a `ServerSession` adds the `initialize` handshake and the check of requests; the tool
-- registry and the resource provider are the stores that a server's handlers work on; the HTTP
-- transport frames bodies and streams.
--
-- Common/ holds what the modules share: numbers, lists, texts as lists of character codes, decimal
-- numbers, and association lists for the maps (Common/Dict.antt). The modules follow the files:
-- - Errors: include/mcp/error.hpp, include/mcp/result.hpp.
-- - Json: the third-party JSON library as an interface (JsonLib) with its laws (JsonLaws), and
--   include/mcp/detail/json_util.hpp. Getters return `none` where the library throws.
-- - Messages, Messages/Frames: src/jsonrpc/message.cpp, include/mcp/jsonrpc/message.hpp,
--   include/mcp/types.hpp. `Attempt` is a result or an exception of the JSON library.
-- - Router: src/core/router.cpp. Handlers and callbacks are data, and running them is a parameter.
-- - Session, Session/Notes, Session/Handling: src/core/session.cpp (class `Session`),
--   include/mcp/core/progress.hpp, include/mcp/core/cancellation.hpp. A session is one record; what
--   it sends and calls is its trace, and an operation at a time is one step. `Operation`, `step` and
--   `run` in Session/Handling.antt put the operations in any order.
-- - Server: src/core/session.cpp (class `ServerSession`), as the derived class of a session.
-- - Client: src/core/session.cpp (class `ClientSession`). `initialize`, which waits for its response, is
--   a step before and a step after the wait.
-- - Schema: src/core/schema.cpp. `Valid` in Schema/Validity.antt describes what a schema accepts.
-- - Tools: src/server/tool_registry.cpp. Resources: src/server/resource_provider.cpp. Prompts:
--   src/server/prompt_provider.cpp. Logging: src/server/logging.cpp.
-- - Content: src/core/content.cpp, include/mcp/content.hpp.
-- - Facade: src/server/server.cpp, the server over these stores. Sessions stand in a store by their
--   address; Facade/Handlers.antt has the request handlers.
-- - Line: src/transport/line_transport.cpp and the loop of src/transport/stdio_transport.cpp.
-- - UriTemplate: src/server/uri_template.cpp. Pagination: include/mcp/detail/pagination.hpp.
-- - Http/Head, Http/Sse, Http/Chunked: src/transport/http/http_codec.cpp. Http/Channel, Http/Post:
--   src/transport/http/sse_channel.cpp. Http/Origin: src/transport/http/http_endpoint.cpp, the check
--   of origins. Http/SessionServer: src/transport/http_session_server.cpp; the sessions behind it are
--   an interface (`Sessions`), and one request is handled after the other.
--
-- Numbers are natural numbers; `size_t` and the 64-bit event ids wrap around modulo 2^64, written out
-- where the code computes with them. `atoi` beyond the range of an `int`, and `strtoull`, are
-- parameters. Request ids and error codes are unbounded integers in place of 64 and 32 bits. The
-- request counter of a session is not wrapped.
--
-- `UriTemplate.tokenize` runs on fuel, the length of the template, of which each round takes a
-- character. `Http.Chunked.feed` runs on twice the length of the buffer and two rounds: of two rounds
-- at least one takes bytes from the buffer, until the last. `Line.drain` runs on the length of the
-- buffer, since a line takes a byte, and `Schema.validate_at` on one more than the depth of the value,
-- since a member or an element is less deep. `Content.content_from_json` runs on more than the nesting
-- of tool results. All other loops are structural.
--
-- A method that holds a lock is one step, so the interleavings of threads are the orders of the
-- steps. A callback of a session runs in the step that calls it and leaves its mark in the trace; what
-- it does with the session in its turn is a later operation, except at the close, where
-- `close_running` has callbacks that send requests while they run. Params of requests with a progress
-- token are taken to be absent or an object, and texts to be UTF-8: on others the JSON library throws.
-- What a request handler throws that is no `std::exception` leaves `dispatch`, as in the source. The
-- conversions of the params and the result of `initialize` are parameters of the two kinds of session.
-- Not modelled: sockets, pipes and threads, the
-- requests of the client class, the HTTP client and the sessionless HTTP server, the JSON forms of
-- tools, resources and prompts (parameters of the server's handlers), logging output and the platform
-- layer.
pub mod Common
pub mod Errors
pub mod Json
pub mod Pagination
pub mod UriTemplate
pub mod Http
pub mod Messages
pub mod Router
pub mod Line
pub mod Session
pub mod Server
pub mod Schema
pub mod Tools
pub mod Resources
pub mod Prompts
pub mod Logging
pub mod Content
pub mod Client
pub mod Facade
pub mod Tests
