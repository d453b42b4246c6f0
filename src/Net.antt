-- ===== src/Net.antt =====
-- The network layer: net/.
pub mod Buffer
pub mod Request
pub mod Context
pub mod Response
pub mod Server
pub mod Tcp
pub mod EventLoop
pub mod TcpServer
pub mod Connector
pub mod Poller
mod PollerExamples
mod EventLoopExamples
mod ConnectorExamples
pub mod RouteTrie
pub mod Timers
mod Examples
mod ServerExamples
mod TcpExamples
mod RouteTrieExamples
mod TimersExamples
mod TcpServerExamples
