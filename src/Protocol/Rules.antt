-- ===== src/Protocol/Rules.antt =====
-- The checks on fields in src/protocol/protocol.cpp, `is_valid_nickname` and
-- `is_valid_chat_message` of src/common/utils.cpp among them, which read the same. The character
-- classes are those of the C and the UTF-8 locales, where no byte from 128 on is in any of them.
pub mod Laws
use chatbox.Common.{
  all_of, ℕ, ◌-◌, Bool, false, not, ◌&&◌, ◌||◌, ltb, leb, ◌==◌, if◌then◌else◌, length, is_empty,
  Bytes,
}
use chatbox.Protocol.Outcome.{max_room_name_length, max_room_topic_length}

abbrev pub iscntrl : ℕ → Bool
iscntrl c = ltb c 32 || c == 127

abbrev pub isspace : ℕ → Bool
isspace c = c == 32 || leb 9 c && leb c 13

abbrev pub isdigit : ℕ → Bool
isdigit c = leb b'0' c && leb c b'9'

abbrev pub isalnum : ℕ → Bool
isalnum c = isdigit c || leb b'A' c && leb c b'Z' || leb b'a' c && leb c b'z'

abbrev pub isxdigit : ℕ → Bool
isxdigit c = isdigit c || leb b'A' c && leb c b'F' || leb b'a' c && leb c b'f'

abbrev pub max_nickname_length : ℕ
max_nickname_length = 31

abbrev pub nickname_char : ℕ → Bool
nickname_char c = not (iscntrl c || isspace c || c == b'|' || c == b',')

abbrev pub text_char : ℕ → Bool
text_char c = not (iscntrl c && not (c == b'\t'))

abbrev pub room_name_char : ℕ → Bool
room_name_char c = isalnum c || c == b'-' || c == b'_'

abbrev pub topic_char : ℕ → Bool
topic_char c = not (iscntrl c)

-- Not empty, at most `most` bytes, and each of them passes the test.
abbrev sized : (ℕ → Bool) → ℕ → Bytes → Bool
sized p most xs = if is_empty xs || ltb most (length xs) then false else all_of p xs

unfoldable pub is_valid_nickname : Bytes → Bool
is_valid_nickname nickname = sized nickname_char max_nickname_length nickname

unfoldable pub is_valid_text : Bytes → ℕ → Bool
is_valid_text xs max_length = sized text_char max_length xs

unfoldable pub is_valid_room_name : Bytes → Bool
is_valid_room_name name = sized room_name_char max_room_name_length name

unfoldable pub is_valid_room_topic : Bytes → Bool
is_valid_room_topic topic =
    if ltb max_room_topic_length (length topic) then false else all_of topic_char topic

unfoldable pub is_hex : Bytes → ℕ → Bool
is_hex xs count = length xs == count && all_of isxdigit xs

-- The test on a password in the `AUTH` branch of `parse_client_message`.
unfoldable pub is_valid_password : Bytes → Bool
is_valid_password password = not (ltb 63 (length password) || not (all_of topic_char password))
