-- ===== src/Http.antt =====
-- src/http: the headers of HTTP messages, and requests.
pub mod Text
pub mod Fields
pub mod Header
pub mod Request
pub mod Credentials
pub mod Reasons
pub mod Response
pub mod Tests
