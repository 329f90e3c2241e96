-- ===== src/Net/BlockList.antt =====
-- `BlockList` of jac/js_engine/engine/src/builtins/js/net.js: the rules, and the calls that add one.
pub mod Six
pub mod Defs
pub mod Checks
pub mod Blocked
pub mod Subnets
