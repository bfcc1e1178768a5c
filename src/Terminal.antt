-- ===== src/Terminal.antt =====
-- The models behind the terminal's screen: src/ui/terminal_model.cpp. The line that is typed, the
-- history of lines, and the part of the transcript that is shown.
pub mod Editor
pub mod History
pub mod Scroll
