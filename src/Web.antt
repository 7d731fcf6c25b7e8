-- ===== src/Web.antt =====
-- lib/ag-solo/web.js: the HTTP and WebSocket listener. The platform parses URLs and JSON; sockets
-- are known by numbers.
pub mod Origin
pub mod Connections
