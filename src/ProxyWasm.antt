-- ===== src/ProxyWasm.antt =====
-- src/common/proxy_wasm: the Proxy-Wasm filters.
pub mod Pairs
pub mod Chain
pub mod Bodies
