-- ===== src/Memcached.antt =====
-- minimemcached: the server's store of entries, and the conversation with a client.
pub mod Tokenizer
pub mod Entry
pub mod Store
pub mod Conversation
mod Tests
