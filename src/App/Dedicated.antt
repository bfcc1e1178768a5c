-- ===== src/App/Dedicated.antt =====
-- The command line of the dedicated server: `run_dedicated_server` of src/app/dedicated_server.cpp, up
-- to the point where `run_dedicated_server_config` opens its log.
pub mod Options
use chatbox.Common.{
  ℕ, ◌+◌, ◌-◌, ◌⊎◌, inl, inr, Bool, true, false, not, ◌&&◌, ◌||◌, Option, none, some, List, [], ◌∷◌,
  ◌++◌, map, ltb, ◌==◌, if◌then◌else◌, is_empty, Bytes, codes, text, bytes_eq,
}
use chatbox.Network.Fields.{parse_u16_field, sanitize_browser_field, stoul}
use chatbox.Network.Directory.{host_max_len, browser_name_max_len}
use chatbox.Protocol.Outcome.{select}

-- `DedicatedServerConfig`, with the fields of its `tls` and those of its `browser_tls` that an option
-- sets.
pub record DedicatedServerConfig : Type 0 where
  pub port : ℕ
  pub password : Bytes
  pub logfile : Bytes
  pub database : Bytes
  pub bans_file : Bytes
  pub identities_file : Bytes
  pub browser_host : Bytes
  pub browser_name : Bytes
  pub browser_public_host : Bytes
  pub history_limit : ℕ
  pub enable_logging : Bool
  pub log_to_stdout_only : Bool
  pub enable_upnp : Bool
  pub publish_to_browser : Bool
  pub tls_enabled : Bool
  pub certificate_path : Bytes
  pub private_key_path : Bytes
  pub browser_tls_enabled : Bool
  pub ca_path : Bytes
  pub expected_fingerprint : Bytes
  pub trust_store_path : Bytes

default_name : Bytes
default_name = text "chatbox dedicated server"

-- The defaults, with the value of `default_trust_store_path`.
default_config : Bytes → ℕ → DedicatedServerConfig
unfolding default_name
default_config trust_store port = record {
  port = port;
  password = [];
  logfile = text "chatlog.txt";
  database = [];
  bans_file = text "bans.txt";
  identities_file = text "identities.txt";
  browser_host = [];
  browser_name = default_name;
  browser_public_host = [];
  history_limit = 100;
  enable_logging = true;
  log_to_stdout_only = false;
  enable_upnp = true;
  publish_to_browser = false;
  tls_enabled = true;
  certificate_path = [];
  private_key_path = [];
  browser_tls_enabled = true;
  ca_path = [];
  expected_fingerprint = [];
  trust_store_path = trust_store;
}

-- The local variables of the loop.
pub record Parsing : Type 0 where
  pub config : DedicatedServerConfig
  pub positional_password_set : Bool
  pub positional_log_set : Bool

-- The server is to run, or the program returns a code after a message.
pub data Launch : Type 0 where
  runs : DedicatedServerConfig → Launch
  returns : ℕ → Bytes → Launch

-- An argument is done with, takes the next one, or ends the program.
pub data Argument : Type 0 where
  taken : Parsing → Argument
  takes_value : (Bytes → Parsing ⊎ Bytes) → Argument
  ends : ℕ → Bytes → Argument

configured : Parsing → (DedicatedServerConfig → DedicatedServerConfig) → Parsing
configured p f = record p { config = f p.config }

flags : List (Bytes × (DedicatedServerConfig → DedicatedServerConfig))
flags =
    (codes "--no-upnp", λ c. record c { enable_upnp = false })
    ∷ (codes "--no-log", λ c. record c { enable_logging = false })
    ∷ (codes "--log-stdout", λ c. record c { enable_logging = true; log_to_stdout_only = true })
    ∷ (codes "--require-tls", λ c. record c { tls_enabled = true })
    ∷ (codes "--browser-plaintext", λ c. record c { browser_tls_enabled = false })
    ∷ []

-- An option that stores its value.
stores : (Bytes → DedicatedServerConfig → DedicatedServerConfig) → Bytes → Parsing → Parsing ⊎ Bytes
unfolding configured
stores f value p = inl (configured p (f value))

max_history_page : ℕ
max_history_page = 500

set_history_limit : Bytes → Parsing → Parsing ⊎ Bytes
unfolding configured max_history_page
set_history_limit value p = elim (stoul value) [
  | none ↦ inr (text "--history-limit must be between 1 and 500")
  | some limit ↦
      if ltb limit 1 || ltb max_history_page limit
      then inr (text "--history-limit must be between 1 and 500")
      else inl (configured p (λ c. record c { history_limit = limit }))
]

has_colon : Bytes → Bool
has_colon [] = false
has_colon (c ∷ cs) = c == b':' || has_colon cs

-- `none` for `false`.
parse_browser_address : Bytes → Option Bytes
unfolding has_colon
parse_browser_address s =
    let host = sanitize_browser_field s host_max_len in
    if is_empty host || has_colon host then none else some host

set_publish : Bytes → Parsing → Parsing ⊎ Bytes
unfolding configured parse_browser_address
set_publish value p = elim (parse_browser_address value) [
  | none ↦ inr (text "Invalid browser address")
  | some host ↦
      inl (configured p (λ c. record c { browser_host = host; publish_to_browser = true }))
]

set_name : Bytes → DedicatedServerConfig → DedicatedServerConfig
unfolding default_name
set_name value c =
    let name = sanitize_browser_field value browser_name_max_len in
    record c { browser_name = if is_empty name then default_name else name }

values : List (Bytes × (Bytes → Parsing → Parsing ⊎ Bytes))
unfolding configured stores set_history_limit set_publish set_name
values =
    (
      codes "--password",
      λ v p.
          inl (record p {
            config = record p.config { password = v };
            positional_password_set = true;
          }),
    )
    ∷ (
      codes "--log",
      λ v p. inl (record p {
        config = record p.config { logfile = v; enable_logging = true; log_to_stdout_only = false };
        positional_log_set = true;
      }),
    )
    ∷ (codes "--database", stores (λ v c. record c { database = v }))
    ∷ (codes "--history-limit", set_history_limit)
    ∷ (codes "--tls-cert", stores (λ v c. record c { certificate_path = v; tls_enabled = true }))
    ∷ (codes "--tls-key", stores (λ v c. record c { private_key_path = v; tls_enabled = true }))
    ∷ (codes "--import-bans", stores (λ v c. record c { bans_file = v }))
    ∷ (codes "--import-identities", stores (λ v c. record c { identities_file = v }))
    ∷ (codes "--identities", stores (λ v c. record c { identities_file = v }))
    ∷ (codes "--browser-tls-ca", stores (λ v c. record c { ca_path = v }))
    ∷ (codes "--tls-ca", stores (λ v c. record c { ca_path = v }))
    ∷ (codes "--browser-trust-fingerprint", stores (λ v c. record c { expected_fingerprint = v }))
    ∷ (codes "--browser-trust-store", stores (λ v c. record c { trust_store_path = v }))
    ∷ (codes "--publish", set_publish)
    ∷ (codes "--name", stores set_name)
    ∷ (
      codes "--public-host",
      stores (λ v c. record c { browser_public_host = sanitize_browser_field v host_max_len }),
    )
    ∷ []

is_option : Bytes → Bool
is_option (c ∷ d ∷ _) = c == b'-' && d == b'-'
is_option _ = false

-- An argument that is no option with a value or without one.
positional : Parsing → Bytes → Argument
unfolding is_option
positional p arg =
    if bytes_eq arg (codes "--help") || bytes_eq arg (codes "-h")
    then ends 0 []
    else if is_option arg
    then ends 1 (text "Unknown option: " ++ arg)
    else if not p.positional_password_set
    then taken
        (record p { config = record p.config { password = arg }; positional_password_set = true })
    else if not p.positional_log_set
    then taken (record p { config = record p.config { logfile = arg }; positional_log_set = true })
    else ends 1 (text "Unknown option: " ++ arg)

-- The `else if` ladder: its names are all different.
classify : Parsing → Bytes → Argument
unfolding configured flags values positional
classify p arg =
    if bytes_eq arg (codes "--allow-plaintext")
    then taken (configured p (λ c. record c { tls_enabled = false }))
    else select arg
        (map
          (λ (o : Bytes × (DedicatedServerConfig → DedicatedServerConfig)).
            (o.0, taken (configured p o.1)))
          flags)
        (select arg
          (map
            (λ (o : Bytes × (Bytes → Parsing → Parsing ⊎ Bytes)). (o.0, takes_value (λ v. o.1 v p)))
            values)
          (positional p arg))

parse_args : Parsing → List Bytes → Launch
unfolding classify
parse_args p [] = runs p.config
parse_args p (arg ∷ []) = elim (classify p arg) [
  | taken q ↦ runs q.config
  | takes_value _ ↦ returns 1 (arg ++ text " requires a value")
  | ends code message ↦ returns code message
]
parse_args p (arg ∷ value ∷ args) = elim (classify p arg) [
  | taken q ↦ parse_args q (value ∷ args)
  | takes_value f ↦ elim (f value) [ inl q ↦ parse_args q args | inr message ↦ returns 1 message ]
  | ends code message ↦ returns code message
]

-- The check of `run_dedicated_server_config`.
check_tls : Launch → Launch
check_tls (returns code message) = returns code message
check_tls (runs c) =
    if c.tls_enabled && (is_empty c.certificate_path || is_empty c.private_key_path)
    then returns 1 (
        text
          "TLS is required by default. Supply --tls-cert and --tls-key, or explicitly use --allow-plaintext.")
    else runs c

-- Its body is that of `parse_u16_field`.
abbrev pub parse_port : Bytes → Option ℕ
parse_port s = parse_u16_field s

-- The arguments behind the name of the mode: the port, and the others.
unfoldable pub run_dedicated_server : Bytes → List Bytes → Launch
unfolding default_config parse_args check_tls
run_dedicated_server trust_store [] = returns 1 []
run_dedicated_server trust_store (port_text ∷ args) = elim (parse_port port_text) [
  | none ↦ returns 1 (text "Invalid port number: " ++ port_text)
  | some port ↦ check_tls (
      parse_args
        (record {
          config = default_config trust_store port;
          positional_password_set = false;
          positional_log_set = false;
        })
        args)
]
