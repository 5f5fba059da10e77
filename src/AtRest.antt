-- ===== src/AtRest.antt =====
-- What is kept sealed in the browser: ui/src/lib/atRestCrypto.ts, ui/src/lib/passkeyWrap.ts and
-- ui/src/lib/deviceKey.ts. WebCrypto, the random bytes, UTF-8 and base64 are parameters.
pub mod Base64
pub mod Keys
pub mod Envelope
pub mod Passkeys
pub mod DeviceKey
pub mod Sample
mod Tests
