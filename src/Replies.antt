-- ===== src/Replies.antt =====
-- src/mmrelay/matrix/replies.py: `truncate_message`. `Utf8` is the encoding that it uses, `Truncate`
-- the function, `Prefix` what is left of a text.
pub mod Utf8
pub mod Truncate
pub mod Bytes
pub mod Cut
pub mod Prefix
mod Tests
