-- ===== src/LoadBalancer.antt =====
-- internal/net/gphttp/loadbalancer: a pool of servers behind one route. Defs has the servers and the
-- requests, RoundRobin, LeastConn, IpHash and Sticky the ways to choose one, Rebalance the weights,
-- Serve the handler that puts them together, and Pool the servers that join and leave.
pub mod Defs
pub mod RoundRobin
pub mod LeastConn
pub mod IpHash
pub mod Sticky
pub mod Rebalance
pub mod Serve
pub mod Pool
mod Tests
