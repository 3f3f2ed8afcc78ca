-- ===== src/Proxy.antt =====
-- content_filter_proxy.py: what the local proxy changes in a request and in a response.
pub mod Schema
pub mod Request
pub mod Messages
pub mod Response
pub mod Stream
