-- ===== src/Driver.antt =====
-- internal/driver: the drivers, without the clients that they call.
pub mod Auth
pub mod Http
pub mod Websocket
pub mod Dns
pub mod Grpc
pub mod Sftp
