-- ===== src/Samples.antt =====
-- The samples: cc3200/samples/blink, of which the URL encoding is modelled.
pub mod Urlencode
mod Tests
