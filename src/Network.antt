-- ===== src/Network.antt =====
-- Where the browser may connect: packages/browser-runtime/netpolicy, the destination check of
-- browserprotocol/destination.go and the egress gateway (packages/browser-runtime/egressgateway).
pub mod Hosts
pub mod Addresses
pub mod Gateway
pub mod Resolver
pub mod Destination
