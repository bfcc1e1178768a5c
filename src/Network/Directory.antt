-- ===== src/Network/Directory.antt =====
-- The directory of servers: `ServerBrowser` and the requests of `ServerBrowserClient` in
-- src/network/server_browser.h. A time is a number of nanoseconds, counted from 2^63 of them before
-- the epoch of `system_clock`, so that each of its times is a number; the readings of the clock
-- within one request are one. What is sent to the directory and back are frames, one in each line;
-- the connection, its TLS and its time limits are not modelled.
pub mod Client
pub mod Invariant
use chatbox.Common.{
  ℕ, ◌+◌, ◌-◌, ◌*◌, ◌/◌, ◌^◌, Bool, none, some, List, [], ◌∷◌, ◌++◌, ltb, leb, ◌==◌, if◌then◌else◌,
  length, is_empty, Bytes, codes, text, bytes_eq,
}
use chatbox.Common.{StringMap, put_key, drop_key, take}
use chatbox.Protocol.Decimal.{to_string}
use chatbox.Protocol.Outcome.{max_frame_length, Result, ok, err}
use chatbox.Protocol.Frame.{encode_frame, decode_frame}
use chatbox.Helpers.{split, cut_at}
use chatbox.Network.Fields.{
  stoi, parse_u16_field, count_field, sanitize_browser_field, browser_entry_key,
}

abbrev pub host_max_len : ℕ
host_max_len = 63

abbrev pub browser_name_max_len : ℕ
browser_name_max_len = 48

abbrev pub second : ℕ
second = 10 ^ 9

abbrev pub browser_entry_ttl : ℕ
browser_entry_ttl = 180 * second

pub record BrowserEntry : Type 0 where
  pub name : Bytes
  pub host : Bytes
  pub port : ℕ
  pub has_password : Bool
  pub uses_tls : Bool
  pub users : ℕ
  pub updated_at : ℕ

-- `entries_`.
abbrev pub ServerBrowser : Type 0
ServerBrowser = StringMap BrowserEntry

-- `now - updated_at` is at most the time to live; the clock may have been set back.
pub is_fresh : ℕ → BrowserEntry → Bool
is_fresh now entry = leb now (entry.updated_at + browser_entry_ttl)

unfoldable pub entries : ServerBrowser → ℕ → List BrowserEntry
unfolding is_fresh
entries [] now = []
entries ((_, entry) ∷ browser) now =
    if is_fresh now entry then entry ∷ entries browser now else entries browser now

pub remove_stale : ServerBrowser → ℕ → ServerBrowser
unfolding is_fresh
remove_stale [] now = []
remove_stale ((key, entry) ∷ browser) now =
    if is_fresh now entry then (key, entry) ∷ remove_stale browser now else remove_stale browser now

pub is_one : Bytes → Bool
is_one s = bytes_eq s (codes "1")

pub flag : Bool → Bytes
flag b = if b then codes "1" else codes "0"

or_default : Bytes → Bytes → Bytes
or_default s otherwise = if is_empty s then otherwise else s

pub put_entry : ServerBrowser → ℕ → BrowserEntry → ServerBrowser
unfolding remove_stale
put_entry browser now entry =
    put_key (browser_entry_key entry.host entry.port entry.name) entry (remove_stale browser now)

-- The entry of a request, with the host and the port that it has been checked for.
new_entry : ℕ → Bytes → Bytes → ℕ → Bytes → Bytes → Bytes → BrowserEntry
unfolding is_one or_default
new_entry now name host port password users tls = record {
  name = or_default (sanitize_browser_field name browser_name_max_len) (codes "chatbox room");
  host = host;
  port = port;
  has_password = is_one password;
  uses_tls = is_one tls;
  users = count_field users;
  updated_at = now;
}

process_register : ServerBrowser → ℕ → List Bytes → ServerBrowser × List Bytes
unfolding new_entry put_entry
process_register browser now (name ∷ host ∷ port ∷ password ∷ users ∷ tls ∷ _) =
    let clean_host = sanitize_browser_field host host_max_len in
    if is_empty clean_host
    then (browser, text "ERROR|Invalid host or port" ∷ [])
    else elim (parse_u16_field port) [
      | none ↦ (browser, text "ERROR|Invalid host or port" ∷ [])
      | some number ↦ (
        put_entry browser now (new_entry now name clean_host number password users tls),
        text "OK" ∷ [],
      )
    ]
process_register browser now _ = (
  browser,
  text "ERROR|REGISTER requires name, host, port, password flag, users, and TLS flag" ∷ [],
)

process_unregister : ServerBrowser → List Bytes → ServerBrowser × List Bytes
process_unregister browser (host ∷ port ∷ name ∷ _) = elim (parse_u16_field port) [
  | none ↦ (browser, text "ERROR|Invalid port" ∷ [])
  | some number ↦ (
    drop_key
        (browser_entry_key (sanitize_browser_field host host_max_len) number
          (sanitize_browser_field name browser_name_max_len))
        browser,
    text "OK" ∷ [],
  )
]
process_unregister browser _ = (browser, text "ERROR|UNREGISTER requires host, port, name" ∷ [])

-- `std::to_string` of the age in whole seconds, cut towards zero.
age_text : ℕ → BrowserEntry → Bytes
age_text now entry =
    if leb entry.updated_at now
    then to_string ((now - entry.updated_at) / second)
    else (let behind = (entry.updated_at - now) / second in
        if behind == 0 then to_string 0 else b'-' ∷ to_string behind)

pub server_line : ℕ → BrowserEntry → Bytes
unfolding flag age_text
server_line now entry =
    codes "SERVER|"
    ++ (entry.name
        ++ (b'|'
            ∷ (entry.host
                ++ (b'|'
                    ∷ (to_string entry.port
                        ++ (b'|'
                            ∷ (flag entry.has_password
                                ++ (b'|'
                                    ∷ (to_string entry.users
                                        ++ (b'|'
                                            ∷ (flag entry.uses_tls
                                                ++ (b'|' ∷ age_text now entry))))))))))))

pub server_lines : ℕ → ServerBrowser → List Bytes
unfolding server_line
server_lines now [] = codes "END" ∷ []
server_lines now ((_, entry) ∷ browser) = server_line now entry ∷ server_lines now browser

process_list : ServerBrowser → ℕ → ServerBrowser × List Bytes
unfolding remove_stale server_lines
process_list browser now = let fresh = remove_stale browser now in (fresh, server_lines now fresh)

-- `process_request` on the fields.
process_parts : ServerBrowser → ℕ → List Bytes → ServerBrowser × List Bytes
unfolding process_register process_unregister process_list
process_parts browser now [] = (browser, text "ERROR|Empty request" ∷ [])
process_parts browser now (command ∷ fields) =
    if bytes_eq command (codes "REGISTER")
    then process_register browser now fields
    else if bytes_eq command (codes "UNREGISTER")
    then process_unregister browser fields
    else if bytes_eq command (codes "LIST")
    then process_list browser now
    else (browser, text "ERROR|Unknown request" ∷ [])

unfoldable pub process_request : ServerBrowser → ℕ → Bytes → ServerBrowser × List Bytes
unfolding process_parts
process_request browser now request = process_parts browser now (split request b'|')

-- What a session writes: a response that has no frame is left out.
pub write_payload : List Bytes → Bytes
write_payload [] = []
write_payload (response ∷ responses) = elim (encode_frame response) [
  | ok line ↦ line ++ write_payload responses
  | err _ _ ↦ write_payload responses
]

-- The line of the request, and what is written for it.
unfoldable pub serve : ServerBrowser → ℕ → Bytes → ServerBrowser × Bytes
unfolding write_payload
serve browser now line = elim (decode_frame line) [
  | err _ _ ↦ (browser, write_payload (codes "ERROR|Invalid framing" ∷ []))
  | ok request ↦
      let (after, responses) = process_request browser now request in
      (after, write_payload responses)
]

-- A session: what is answered to what the client writes. Without the end of a line within the limit
-- of the buffer there is no answer.
unfoldable pub session : ServerBrowser → ℕ → Bytes → ServerBrowser × Bytes
session browser now payload = elim (cut_at b'\n' payload) [
  | none ↦ (browser, [])
  | some (line, _) ↦
      if ltb max_frame_length (length line + 1) then (browser, []) else serve browser now line
]
