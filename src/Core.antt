-- ===== src/Core.antt =====
-- bot/core: the enumerations, the text helpers on symbols and the models that the layers share.
pub mod Enums
pub mod Text
pub mod Models
