-- ===== src/Tests/Network.antt =====
-- Trust, the directory and the dedicated server at concrete inputs.
use chatbox.Common.{
  All, ◌+◌, ◌*◌, ◌^◌, ◌≤◌, ◌<◌, ◌≡◌, refl, ◌≢◌, inl, inr, true, false, none, some, List, [], ◌∷◌,
  map, arith, ltb, if◌then◌else◌, length, Bytes, codes, text, bytes_eq,
}
use chatbox.Common.{at_key}
use chatbox.Protocol.Outcome.{select}
use chatbox.Network.Trust.{
  Disk, Peer, ClientConfig, normalize_fingerprint, address_key, read_trust_store, write_trust_store,
  open_store, save, trusted_before, verify_peer,
}
use chatbox.Network.Trust.Safety.{Justified, verify_peer-Justified}
use chatbox.Network.Trust.Memory.{read_trust_store-write_trust_store}
use chatbox.Network.Trust.Again.{save-verify_peer}
use chatbox.Network.Invite.{Invite, make_invite, parse_invite}
use chatbox.Network.Invite.RoundTrip.{normalized, parse_invite-make_invite}
use chatbox.Network.Fields.{stoi, browser_entry_key, parse_u16_field}
use chatbox.Network.Directory.{BrowserEntry, entries, process_request, session}
use chatbox.Network.Directory.Invariant.{IsBrowser, process_request-IsBrowser}
use chatbox.Network.Directory.Client.{
  max_responses, register_request, register_server, list_servers,
}
use chatbox.Network.Directory.Client.Lines.{seen}
use chatbox.Network.Directory.Client.Listing.{list_servers-entries}
use chatbox.Network.Directory.Client.Register.{stamped, register_server_lem}
use chatbox.App.Dedicated.{DedicatedServerConfig, run_dedicated_server}
use chatbox.App.Dedicated.Options.Launching.{Secured, run_dedicated_server-Secured}
use chatbox.App.Console.{console_line}
use chatbox.Helpers.{join_all}
use chatbox.Helpers.Laws.{has_no, ends_full}
use chatbox.App.Console.Orders.{
  Order, topic, spelled, command_word, order_arguments, effect, is_end, console_line-effect,
}
use chatbox.Tests.Rooms.{server}
use chatbox.Protocol.Decimal.{to_string}
use chatbox.Helpers.Laws.{has_no}

abbrev print_of : Bytes
print_of = codes "ABCDEF0123456789ABCDEF0123456789ABCDEF0123456789ABCDEF0123456789"

abbrev empty_disk : Disk
empty_disk = record { files = λ _. none; write_error = λ _. none }

abbrev first_use : ClientConfig
first_use = record {
  expected_fingerprint = [];
  trust_store_path = codes "store";
  trust_on_first_use = true;
  confirm_certificate = none;
}

abbrev self_signed : Peer
self_signed = record {
  has_certificate = true;
  fingerprint = print_of;
  is_verified = false;
  verify_error = codes "self-signed";
  matches_host = false;
}

verify_peer-Justified_example :
    (self_signed.has_certificate ≡ true)
    × (self_signed.fingerprint ≢ [])
    × Justified first_use self_signed (address_key (codes "host") 2727) (
        trusted_before
          (open_store (codes "default") first_use empty_disk).entries
          (address_key (codes "host") 2727))
unfolding verify_peer bytes_eq trusted_before at_key read_trust_store write_trust_store
verify_peer-Justified_example =
    verify_peer-Justified (codes "default") first_use self_signed (codes "host") 2727 empty_disk
      (λ d. d) refl

read_trust_store-write_trust_store_example :
    at_key (codes "host:1") (
      read_trust_store
        (write_trust_store empty_disk (codes "store") ((codes "host:1", print_of) ∷ [])).0
        (codes "store"))
    ≡ at_key (codes "host:1") ((codes "host:1", print_of) ∷ [])
unfolding normalize_fingerprint has_no
read_trust_store-write_trust_store_example =
    read_trust_store-write_trust_store empty_disk (codes "store") (codes "host:1")
      ((codes "host:1", print_of) ∷ []) ((tt, tt), (((refl, refl, refl), (refl, refl, refl)), tt))
      refl

abbrev saved_disk : Disk
saved_disk = (save first_use self_signed (address_key (codes "host") 2727) [] empty_disk).disk

save-verify_peer_example :
    (verify_peer
      (codes "default")
      first_use
      self_signed
      (codes "host")
      2727
      saved_disk
      (λ d. d)).is_accepted
    ≡ true
unfolding normalize_fingerprint has_no address_key save open_store to_string at_key read_trust_store
    write_trust_store bytes_eq
save-verify_peer_example =
    save-verify_peer (codes "default") first_use self_signed (codes "host") 2727 [] empty_disk
      (λ d. d) (refl, refl, refl) (refl, refl, refl) refl refl refl refl

process_request-IsBrowser_example :
    IsBrowser (process_request [] 5 (codes "REGISTER|room|host|2727|0|3|1")).0
process_request-IsBrowser_example =
    process_request-IsBrowser [] 5 (codes "REGISTER|room|host|2727|0|3|1") tt

abbrev published : BrowserEntry
published = record {
  name = codes "r";
  host = codes "h";
  port = 2727;
  has_password = false;
  uses_tls = true;
  users = 3;
  updated_at = 10 ^ 18;
}

list_servers-entries_example :
    list_servers
      (λ payload. (session ((codes "k", published) ∷ []) (10 ^ 18 + 7 * 10 ^ 9) payload).1)
      (10 ^ 18)
    ≡ (if ltb (length (entries ((codes "k", published) ∷ []) (10 ^ 18 + 7 * 10 ^ 9))) max_responses
        then inl (
            map
              (seen (10 ^ 18 + 7 * 10 ^ 9) (10 ^ 18))
              (entries ((codes "k", published) ∷ []) (10 ^ 18 + 7 * 10 ^ 9)))
        else inr (text "Browser response did not include END"))
list_servers-entries_example =
    list_servers-entries ((codes "k", published) ∷ []) (10 ^ 18 + 7 * 10 ^ 9) (10 ^ 18) (
      (
        (
          ((refl, tt), omega arith),
          ((refl, tt), omega arith),
          (cc),
          (cc),
          omega arith,
          omega arith,
        ),
        (omega arith, tt),
        (omega arith, tt),
        omega arith,
      ),
      tt,
    )

register_server_lem_example :
    (at_key
        (browser_entry_key (codes "h") 2727 (codes "r"))
        (process_request [] 5 (register_request published)).0
      ≡ some (stamped 5 published))
    × (register_server (λ payload. (session [] 5 payload).1) published ≡ none)
register_server_lem_example =
    register_server_lem [] 5 published
      (((refl, tt), omega arith), ((refl, tt), omega arith), (cc), (cc), omega arith, omega arith)
      (omega arith, tt) (omega arith, tt)

abbrev arguments : List Bytes
arguments = codes "--tls-cert" ∷ codes "c" ∷ codes "--tls-key" ∷ codes "k" ∷ []

-- What these arguments leave of the defaults.
abbrev launched : DedicatedServerConfig
launched = record {
  port = 2727;
  password = [];
  logfile = text "chatlog.txt";
  database = [];
  bans_file = text "bans.txt";
  identities_file = text "identities.txt";
  browser_host = [];
  browser_name = text "chatbox dedicated server";
  browser_public_host = [];
  history_limit = 100;
  enable_logging = true;
  log_to_stdout_only = false;
  enable_upnp = true;
  publish_to_browser = false;
  tls_enabled = true;
  certificate_path = codes "c";
  private_key_path = codes "k";
  browser_tls_enabled = true;
  ca_path = [];
  expected_fingerprint = [];
  trust_store_path = codes "store";
}

run_dedicated_server-Secured_example :
    Secured arguments launched
    × (1 ≤ launched.history_limit)
    × (launched.history_limit ≤ 500)
    × (launched.port < 65536)
unfolding run_dedicated_server select parse_u16_field stoi bytes_eq
run_dedicated_server-Secured_example =
    run_dedicated_server-Secured (codes "store") (codes "2727") arguments launched refl

abbrev order : Order
order = topic (codes "games") (codes "Hello") (codes "world" ∷ [])

spelled-no_space : All (λ word. has_no b' ' word ≡ true) (spelled order)
unfolding command_word order_arguments has_no
spelled-no_space = (refl, (refl, (refl, (refl, tt))))

spelled-full : ends_full (spelled order) ≡ true
unfolding command_word order_arguments ends_full
spelled-full = refl

console_line-effect_example :
    ((console_line server (join_all (spelled order) b' ')).server ≡ effect server order)
    × ((console_line server (join_all (spelled order) b' ')).quits ≡ is_end order)
console_line-effect_example = console_line-effect server order spelled-no_space spelled-full

abbrev invite : Invite
invite = record {
  host = codes "h.org";
  port = 7777;
  tls = true;
  password_required = false;
  fingerprint = print_of;
}

abbrev invite_made : Bytes
invite_made =
    codes
      "chatbox:1|h.org|7777|1|0|ABCDEF0123456789ABCDEF0123456789ABCDEF0123456789ABCDEF0123456789"

parse_invite-make_invite_example : parse_invite invite_made ≡ inl (normalized invite)
unfolding make_invite normalize_fingerprint to_string
parse_invite-make_invite_example = parse_invite-make_invite invite invite_made (omega arith) refl
