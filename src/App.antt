-- ===== src/App.antt =====
-- The user's side of the program: the state that the chat screen draws (src/app/app_state.cpp), the
-- client's connection (src/chat/chat_client.h) and the commands of a line of input
-- (src/app/commands.cpp).
pub mod Dedicated
pub mod Console
pub mod State
pub mod Client
pub mod Commands
