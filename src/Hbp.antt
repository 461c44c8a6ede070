-- ===== src/Hbp.antt =====
-- internal/protocol/hbp: the Homebrew messages. Data is data.go, Message the choice of a parser in
-- message.go, Control and Config the messages besides frames, and Parse all of them together.
pub mod Data
pub mod Control
pub mod Config
pub mod Parse
pub mod Message
pub mod Tests
