-- ===== src/Cpp.antt =====
-- socket_examples_cpp.cpp: the socket programs again, as classes whose destructors release what they
-- hold and whose methods throw.
pub mod Rounds
pub mod Method
pub mod Socket
pub mod Scopes
pub mod TcpServer
pub mod Dispatch
pub mod SelectEchoServer
pub mod Bandwidth
pub mod UdpClient
pub mod UdpServer
pub mod TcpClient
