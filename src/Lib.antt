-- ===== src/Lib.antt =====
-- A model of mcp-go-sdk, an SDK of the Model Context Protocol in Go, and theorems about it.
--
-- The program. JSON-RPC messages (shared/types.go) come from a transport as texts. The message
-- handler (internal/jsonrpc.go) tells requests, notifications and responses apart, queues them
-- and leads every response to the channel of the request that it answers; the handler of requests
-- with progress (internal/progress_handler.go) stands on top of it and leads progress
-- notifications to callbacks. Transports carry the texts: transport/inprocess.go to a small
-- server of its own in the same process, transport/stdio.go as lines of a byte stream,
-- transport/websocket.go over a WebSocket that reconnects, transport/streamable_http.go and
-- transport/streamable_http_server.go over HTTP, with events for clients that listen. The client
-- (client/client.go) sends the requests of the protocol over a transport and reads the results.
-- The server (server/server.go) takes the queued requests, runs them on a bounded pool of workers
-- and answers them from its tables of resources, tools, prompts and custom methods. The
-- registries (server/registry.go, and for templates server/resource_template.go) are stand-alone
-- tables with a cache, subscribers and statistics. URI templates (shared/uri_template.go) are
-- parsed, expanded with variables and matched.
--
-- The files.
--   Prelude: Boolean tests, lists, keys, and Go's maps as association lists (Prelude/Dict).
--   Value: the values of `interface{}` that encoding/json makes; Value/Entries: map assignments;
--     Value/MapKey: the values that can be keys of a map; Value/Reparsing: what is read back of a
--     value that was written.
--   Shared/Message, Shared/Types: the structs of shared/types.go with IsRequest, ToRequest and the
--     like; Shared/Validation: the Validate methods of shared/validation.go; Accepted: its proofs.
--   Shared/Text: strings as bytes, with what is used of strings, net/url and regexp;
--     Shared/UriTemplate: the parser; Expansion: Expand and Match. Termination, Names, Printing,
--     RoundTrip and Encoding hold the proofs.
--   Internal/Handler: NewMessageHandler, removePendingRequest and the timer's function; Sending:
--     SendRequest, SendNotification, SendResponse; Receiving: handleIncomingMessage,
--     correlateResponse, Close; Steps: these as atomic steps of a run. Invariant, Cells, Safety,
--     Schedule, Correlation and Routing hold the proofs.
--   Internal/Progress: SendRequestWithProgress, addProgressToken, removeProgressRequest; Receiving:
--     handleProgressNotification, handleRequestTimeout, Close; Tracking, Safety, Arrivals, Sends,
--     Schedule, Meta and Outcomes hold the proofs.
--   Server: the state of a server; Registration: NewServer, RegisterTool, UnregisterTool and the
--     like; Handlers: handleRequest and the built-in methods; Workers: processRequests and
--     dispatchRequests. Consistency, Calls, Reads, Methods, Notices and the children of Workers hold
--     the proofs.
--   Server/Resources: ResourceRegistry; Steps: its operations as steps; Caching and Upkeep: proofs.
--   Server/ResourceTemplate: ValidateURITemplate; Grammar: its proofs.
--   Server/Tools: ToolRegistry; Steps: its operations as steps; Tally: proofs.
--   Server/Templates: the registry of server/resource_template.go; Runs: its operations against a
--     table of names; Views, Updates, Upkeep and Names hold the proofs.
--   Transport/InProcess: the in-process transport; Delivery and Calls: proofs.
--   Transport/HttpServer: handleRPC in two parts around its wait, its timers, SendResponse; Events:
--     the SSE clients and SendNotification. Exchanges, Steps, Offers, Interleaving,
--     Stranding, Answers and Broadcast: proofs.
--   Transport/HttpClient: SendRequest, sendHTTPRequest; Stream: the SSE loop; Reconnecting: proofs.
--   Transport/HttpRoundTrip: the client and the server together.
--   Transport/Stdio: what is used of bufio, NewStdioTransport; Loops: readLoop, writeLoop, the
--     bridges, the methods and Close; Link: two transports and the stream between them, with what
--     goes in and comes out; Queue: the queue that they implement. Lines, Outgoing, Incoming,
--     Refinement, Drain and Errors hold the proofs.
--   Transport/WebSocket: NewWebSocketTransport and Connect; Loops: handleDisconnection, the loops, the
--     sends and Close; Steps: runs until Close. Connection and Reconnection hold the proofs.
--   Client: a client and what it reads of results; Methods: Initialize, ListTools and the others;
--     Encoding: the server's results by the tags of their structs. Reading, Served and Prompts hold
--     the proofs about a client whose transport leads to a server of Server.
--   Internal/Examples, Internal/ProgressExamples, Server/Examples, Server/RegistryExamples,
--     Server/TemplateExamples, Shared/Examples, Shared/UriTemplateExamples,
--     Transport/InProcessExamples, Transport/HttpExamples, Transport/StdioExamples,
--     Transport/WebSocketExamples, Client/Examples: instances at concrete inputs.
--
-- How state is modelled. A struct is a record and an operation a function on it. What a goroutine
-- does under one lock, or alone, is one step; a run is any list of steps, so every order of whole
-- operations is covered, and the window between a timer that fires and its lock is split further
-- (`timer_fires`, `timer_closes`). A channel that other code drains is the list of what was put
-- into it; where a `select` chooses between a channel and the end of a context, an argument says
-- which case ran. Response channels, timers and cancel functions live at addresses (`cells`), so a
-- second close of one channel is the panic that it is in Go (`Run`). A read or execution in a
-- registry is two steps around its handler. Functions recur on lists, but for the loop of the
-- template parser: its fuel is the length of the template, of which every turn takes a byte.
--
-- Parameters. float64 is a type with Go's conversion to int64; encoding/json is a record of
-- functions that may fail; user handlers are functions, in the registries with the world that they
-- read as an argument. Request ids and tokens wrap at 2 ^ 64; theorems over runs assume fewer
-- steps. Statistics, clocks and durations are natural numbers: they do not come near 2 ^ 63.
--
-- net/http is an argument: what becomes of a request (`Attempt`, `Connection`), and the body that
-- a POST brings. The engine of regular expressions that Match calls is the record `Regexp`.
--
-- Of the package bufio, Transport/Stdio has what the loops use. An io.Writer is a function that says
-- how much of a chunk it takes (`Sink`); the refinement assumes one that takes everything, and
-- messages that are lines of their own and fit the reader's buffer.
--
-- What steps leave out: a read or execution of a registry that has to wait for the pool (`waits`)
-- does not go on later with the entry that it found; SendResponse of the HTTP server looks its
-- entry up and sends in one step, so no timer comes between; a send with progress that is given up
-- is given up because the handler has been closed, not by a timeout of its own context.
--
-- Not modelled: transport/sse.go, the spawning of processes and OAuth; headers, heartbeats and
-- the closing of HTTP transports; the builders of compat; the matching and the expansion of
-- server/resource_template.go; ValidateStruct of shared/validation.go, which walks structs by
-- reflection; PromptRegistry.
pub mod Prelude
pub mod Value
pub mod Shared
pub mod Internal
pub mod Server
pub mod Transport
pub mod Client
