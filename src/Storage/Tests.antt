-- ===== src/Storage/Tests.antt =====
-- The theorems about src/storage at concrete inputs, over the parameters of `Storage.Reference`.
mod Encoding
mod Stores
