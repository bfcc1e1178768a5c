-- ===== src/Network/Directory/Client.antt =====
-- The client of a directory: `ServerBrowserClient` of src/network/server_browser.h. The connection is
-- an argument: what comes back for what is written, until it is closed.
pub mod Exchange
pub mod Lines
pub mod Listing
pub mod Register
use chatbox.Common.{
  ◌⊎◌, inl, inr, ℕ, zero, suc, ◌+◌, ◌-◌, ◌*◌, Bool, true, false, not, ◌||◌, Option, none, some,
  List, [], ◌∷◌, ◌++◌, ltb, if◌then◌else◌, length, Bytes, codes, text, bytes_eq,
}
use chatbox.Protocol.Decimal.{to_string}
use chatbox.Protocol.Outcome.{Result, ok, err, max_frame_length}
use chatbox.Protocol.Frame.{encode_frame, decode_frame}
use chatbox.Helpers.{split, cut_at}
use chatbox.Network.Fields.{parse_u16_field, count_field, sanitize_browser_field}
use chatbox.Network.Directory.{
  BrowserEntry, host_max_len, browser_name_max_len, second, is_one, flag,
}

abbrev pub max_responses : ℕ
max_responses = 1000

starts_with_error : Bytes → Bool
starts_with_error (e ∷ r ∷ r' ∷ o ∷ r'' ∷ bar ∷ _) =
    bytes_eq (e ∷ r ∷ r' ∷ o ∷ r'' ∷ bar ∷ []) (codes "ERROR|")
starts_with_error _ = false

pub is_last : Bytes → Bool
unfolding starts_with_error
is_last response =
    bytes_eq response (codes "END") || bytes_eq response (codes "OK") || starts_with_error response

-- The loop that reads the responses; `none` for one that is no frame. A line that the buffer does not
-- hold, or that has no end, ends it.
pub receive : ℕ → Bytes → Option (List Bytes)
unfolding is_last
receive zero payload = some []
receive (suc left) payload = elim (cut_at b'\n' payload) [
  | none ↦ some []
  | some (line, rest) ↦
      let more = receive left rest in
      if ltb max_frame_length (length line + 1) then some [] else elim (decode_frame line) [
        | err _ _ ↦ none
        | ok response ↦
            if is_last response
            then some (response ∷ [])
            else elim more [ none ↦ none | some responses ↦ some (response ∷ responses) ]
      ]
]

-- The responses, or the error.
pub data Reply : Type 0 where
  responded : List Bytes → Reply
  not_sent : Bytes → Reply

pub received : Option (List Bytes) → Reply
received none = not_sent (text "Invalid directory response")
received (some []) = not_sent (text "No response from browser server")
received (some (response ∷ responses)) = responded (response ∷ responses)

unfoldable pub send_request : (Bytes → Bytes) → Bytes → Reply
unfolding receive received
send_request connection request = elim (encode_frame request) [
  | err _ _ ↦ not_sent (text "Invalid directory request")
  | ok payload ↦ received (receive max_responses (connection payload))
]

pub register_request : BrowserEntry → Bytes
unfolding flag
register_request entry =
    codes "REGISTER|"
    ++ (sanitize_browser_field entry.name browser_name_max_len
        ++ (b'|'
            ∷ (sanitize_browser_field entry.host host_max_len
                ++ (b'|'
                    ∷ (to_string entry.port
                        ++ (b'|'
                            ∷ (flag entry.has_password
                                ++ (b'|'
                                    ∷ (to_string entry.users
                                        ++ (b'|' ∷ flag entry.uses_tls))))))))))

-- `none` where it succeeds, or the error.
registered : Reply → Option Bytes
registered (not_sent error) = some error
registered (responded []) = some (text "No browser response")
registered (responded (response ∷ _)) =
    if bytes_eq response (codes "OK") then none else some response

unfoldable pub register_server : (Bytes → Bytes) → BrowserEntry → Option Bytes
unfolding register_request registered
register_server connection entry = registered (send_request connection (register_request entry))

unregister_request : BrowserEntry → Bytes
unregister_request entry =
    codes "UNREGISTER|"
    ++ (sanitize_browser_field entry.host host_max_len
        ++ (b'|'
            ∷ (to_string entry.port
                ++ (b'|' ∷ sanitize_browser_field entry.name browser_name_max_len))))

is_responded : Reply → Bool
is_responded (responded _) = true
is_responded (not_sent _) = false

unfoldable pub unregister_server : (Bytes → Bytes) → BrowserEntry → Bool
unfolding unregister_request is_responded
unregister_server connection entry =
    is_responded (send_request connection (unregister_request entry))

-- A line that is no server is passed over.
pub read_server : ℕ → List Bytes → Option BrowserEntry
unfolding is_one
read_server now (kind ∷ name ∷ host ∷ port ∷ password ∷ users ∷ tls ∷ age ∷ _) =
    if not (bytes_eq kind (codes "SERVER")) then none else elim (parse_u16_field port) [
      | none ↦ none
      | some number ↦ some (record {
        name = name;
        host = host;
        port = number;
        has_password = is_one password;
        uses_tls = is_one tls;
        users = count_field users;
        updated_at = now - count_field age * second;
      })
    ]
read_server now _ = none

-- `none` where no line is the last one.
pub read_servers : ℕ → List Bytes → Option (List BrowserEntry)
unfolding read_server
read_servers now [] = none
read_servers now (line ∷ lines) =
    let more = read_servers now lines in
    if bytes_eq line (codes "END") then some [] else elim (read_server now (split line b'|')) [
      | none ↦ more
      | some entry ↦ elim more [ none ↦ none | some found ↦ some (entry ∷ found) ]
    ]

ended : Option (List BrowserEntry) → List BrowserEntry ⊎ Bytes
ended none = inr (text "Browser response did not include END")
ended (some found) = inl found

listed : ℕ → Reply → List BrowserEntry ⊎ Bytes
unfolding read_servers ended
listed now (not_sent error) = inr error
listed now (responded lines) = ended (read_servers now lines)

-- The entries, or the error.
unfoldable pub list_servers : (Bytes → Bytes) → ℕ → List BrowserEntry ⊎ Bytes
unfolding listed
list_servers connection now = listed now (send_request connection (codes "LIST"))
