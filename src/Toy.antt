-- ===== src/Toy.antt =====
-- A small concrete platform to run the model on: a codec for the document in place of JSON, a
-- cipher that writes its key and its additional data in front of the text, and security keys.
pub mod Codec
pub mod Cipher
pub mod Keys
pub mod Working
pub mod Counting
pub mod Device
