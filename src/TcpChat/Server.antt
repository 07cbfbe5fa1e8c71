-- ===== src/TcpChat/Server.antt =====
-- The chat server: module3/task07/server.c.
-- `clients` is the first `num_clients` entries of `client_sockets`; `watched` is what the epoll
-- instance watches besides the listening socket, `open` the client sockets not yet closed.
mod Clients
unfoldable pub use Clients.*
mod Steps
unfoldable pub use Steps.*
pub mod Table
