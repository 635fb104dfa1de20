-- ===== src/Pairing.antt =====
-- web/pairing.js: the screens and the sockets of a session, as a state machine. A click is one of
-- the buttons of the screen that is shown; a socket that is closing gives no more messages.
pub mod State
pub mod Screens
pub mod Session
pub mod Flows
pub mod Buttons
pub mod Steps
pub mod Link
pub mod Code
pub mod Messages
pub mod Navigation
pub mod Swaps
pub mod Reconnection
pub mod Reach
pub mod Sockets
pub mod Attempts
