-- ===== src/Filecrypt.antt =====
-- server/filecrypt.go: uploaded files at rest, and the byte ranges that are served from them.
-- Bytes are numbers below 256. `crypto/aes` and the byte-wise XOR of `crypto/cipher` are
-- parameters: `pad key block i` is byte i of the encrypted counter block.
pub mod Counter
pub mod Range
pub mod Stream
pub mod Serve
