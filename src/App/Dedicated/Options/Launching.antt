-- ===== src/App/Dedicated/Options/Launching.antt =====
-- What holds of a dedicated server that the command line starts.
use chatbox.Common.{
  is_empty-ne-nil, bytes_eq_sym, ℕ, ◌≤◌, ◌<◌, ◌≡◌, refl, ◌∙◌, subst, ◌≢◌, ◌⊎◌, inl, inr, true,
  false, ◌&&◌, ◌||◌, Option, none, some, List, [], ◌∷◌, ◌++◌, arith, Bool-cases, is_empty, Bytes,
  text, bytes_eq,
}
use chatbox.Common.{if-elim}
use chatbox.Network.Fields.{port_bound}
use chatbox.Network.Fields.Laws.{parse_u16_field-lt}
use chatbox.Chat.Admin.{has_text}
use chatbox.App.Dedicated.Options.{
  allow_plaintext, Kept, Given, Classified, Launched, classify-Classified,
}
use chatbox.App.Dedicated.{
  parse_port, DedicatedServerConfig, Parsing, Launch, runs, returns, Argument, taken, takes_value,
  ends, classify, parse_args, check_tls, run_dedicated_server, default_config,
}

-- Each of the texts stands among the others.
Within : List Bytes → List Bytes → Type 0
Within some_args args = (x : Bytes) → has_text x some_args ≡ true → has_text x args ≡ true

rest-Within :
    (arg : Bytes) (some_args args : List Bytes)
    → Within (arg ∷ some_args) args
    → Within some_args args
unfolding Within has_text
rest-Within arg some_args args w x h = w x (ground (arith, h))

first-Within :
    (arg : Bytes) (some_args args : List Bytes)
    → Within (arg ∷ some_args) args
    → bytes_eq arg allow_plaintext ≡ true
    → has_text allow_plaintext args ≡ true
unfolding Within has_text
first-Within arg some_args args w e =
    w allow_plaintext (ground (arith, bytes_eq_sym allow_plaintext arg ∙ e))

parse_args-Launched :
    (args : List Bytes) (p : Parsing) (some_args : List Bytes)
    → Within some_args args
    → Kept args p.config
    → Launched args (parse_args p some_args)
unfolding parse_args Launched Classified Given
parse_args-Launched args p [] w k = k
parse_args-Launched args p (arg ∷ []) w k =
    step (classify p arg) (classify-Classified args p arg (first-Within arg [] args w) k)
  where
    step :
        (a : Argument)
        → Classified args a
        → Launched args (elim a [
          | taken q ↦ runs q.config
          | takes_value _ ↦ returns 1 (arg ++ text " requires a value")
          | ends code message ↦ returns code message
        ])
    step (taken q) h = h
    step (takes_value f) h = tt
    step (ends code message) h = tt
parse_args-Launched args p (arg ∷ value ∷ rest) w k =
    step (classify p arg)
      (classify-Classified args p arg (first-Within arg (value ∷ rest) args w) k)
      (λ q. parse_args-Launched args q (value ∷ rest) (rest-Within arg (value ∷ rest) args w))
      (λ q.
        parse_args-Launched args q rest
          (rest-Within value rest args (rest-Within arg (value ∷ rest) args w)))
  where
    given :
        (g : Parsing ⊎ Bytes)
        → Given args g
        → ((q : Parsing) → Kept args q.config → Launched args (parse_args q rest))
        → Launched args (elim g [ inl q ↦ parse_args q rest | inr message ↦ returns 1 message ])
    given (inl q) h far = far q h
    given (inr message) h far = tt

    step :
        (a : Argument)
        → Classified args a
        → ((q : Parsing) → Kept args q.config → Launched args (parse_args q (value ∷ rest)))
        → ((q : Parsing) → Kept args q.config → Launched args (parse_args q rest))
        → Launched args (elim a [
          | taken q ↦ parse_args q (value ∷ rest)
          | takes_value f ↦ elim (f value) [
            | inl q ↦ parse_args q rest
            | inr message ↦ returns 1 message
          ]
          | ends code message ↦ returns code message
        ])
    step (taken q) h near far = near q h
    step (takes_value f) h near far = given (f value) (h value) far
    step (ends code message) h near far = tt

-- What a server that is started has: a certificate and its key, or the user's word that it has none.
pub Secured : List Bytes → DedicatedServerConfig → Type 0
Secured args c =
    ((c.tls_enabled ≡ true) × (c.certificate_path ≢ []) × (c.private_key_path ≢ []))
    ⊎ ((c.tls_enabled ≡ false) × (has_text allow_plaintext args ≡ true))

Bounded : List Bytes → DedicatedServerConfig → Type 0
Bounded args c =
    Secured args c × (1 ≤ c.history_limit) × (c.history_limit ≤ 500) × (c.port < port_bound)

Checked : List Bytes → Launch → Type 0
Checked args (runs c) = Bounded args c
Checked args (returns _ _) = Unit

secured_lem :
    (args : List Bytes) (c : DedicatedServerConfig)
    → (c.tls_enabled ≡ true) ⊎ (has_text allow_plaintext args ≡ true)
    → (c.tls_enabled && (is_empty c.certificate_path || is_empty c.private_key_path)) ≡ false
    → Secured args c
unfolding Secured
secured_lem args c word h = elim (Bool-cases c.tls_enabled) [
  | inl on ↦ inl (
    on,
    is_empty-ne-nil c.certificate_path (ground (arith, on, h)),
    is_empty-ne-nil c.private_key_path (ground (arith, on, h)),
  )
  | inr off ↦ inr (off, elim word [ inl on ↦ cc (on, off) | inr said ↦ said ])
]

check_tls-Checked :
    (args : List Bytes) (launch : Launch) → Launched args launch → Checked args (check_tls launch)
unfolding check_tls Launched Checked Bounded
check_tls-Checked args (returns code message) h = tt
check_tls-Checked args (runs c) (tls, low, high, port) =
    if-elim (Checked args)
      (c.tls_enabled && (is_empty c.certificate_path || is_empty c.private_key_path)) (λ _. tt)
      (λ e. (secured_lem args c tls e, low, high, port))

run_dedicated_server-Checked :
    (trust_store port_text : Bytes) (args : List Bytes)
    → Checked args (run_dedicated_server trust_store (port_text ∷ args))
unfolding run_dedicated_server Checked default_config Within
run_dedicated_server-Checked trust_store port_text args = step (parse_port port_text) refl
  where
    parsing : ℕ → Parsing
    parsing port = record {
      config = default_config trust_store port;
      positional_password_set = false;
      positional_log_set = false;
    }

    step :
        (r : Option ℕ)
        → parse_port port_text ≡ r
        → Checked args (elim r [
          | none ↦ returns 1 (text "Invalid port number: " ++ port_text)
          | some port ↦ check_tls (parse_args (parsing port) args)
        ])
    step none e = tt
    step (some port) e = check_tls-Checked args (parse_args (parsing port) args) (
        parse_args-Launched args (parsing port) args (λ x h. h)
          (inl refl, omega arith, omega arith, parse_u16_field-lt port_text port e))

-- A dedicated server that the command line starts runs under TLS with the paths of a certificate and
-- of a key, or without TLS and `--allow-plaintext` stands among the arguments; its port is below
-- 65536, and it keeps between 1 and 500 messages of a room.
pub run_dedicated_server-Secured :
    (trust_store port_text : Bytes) (args : List Bytes) (config : DedicatedServerConfig)
    → run_dedicated_server trust_store (port_text ∷ args) ≡ runs config
    → Secured args config
      × (1 ≤ config.history_limit)
      × (config.history_limit ≤ 500)
      × (config.port < port_bound)
unfolding Checked Bounded
run_dedicated_server-Secured trust_store port_text args config h =
    subst (Checked args) h (run_dedicated_server-Checked trust_store port_text args)
