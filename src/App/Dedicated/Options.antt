-- ===== src/App/Dedicated/Options.antt =====
-- What each argument of the dedicated server keeps of its configuration.
pub mod Launching
use chatbox.Common.{
  ℕ, ◌-◌, ◌≤◌, ◌<◌, ◌≡◌, refl, ◌⊎◌, inl, inr, true, not, ◌||◌, Option, none, some, List, map, arith,
  ltb, if◌then◌else◌, All, Bytes, codes, text, bytes_eq,
}
use chatbox.Common.{if-elim, bytes_eq_iff}
use chatbox.Protocol.Outcome.{select, select_All}
use chatbox.Network.Fields.{parse_u16_field, stoul, port_bound}
use chatbox.Network.Fields.Laws.{parse_u16_field-lt}
use chatbox.Chat.Admin.{has_text}
use chatbox.App.Dedicated.{
  is_option, max_history_page, DedicatedServerConfig, Parsing, Launch, runs, returns, Argument,
  taken, takes_value, ends, configured, flags, values, stores, set_history_limit, set_publish,
  set_name, positional, classify, parse_args, check_tls, run_dedicated_server, default_config,
  parse_browser_address,
}

abbrev pub allow_plaintext : Bytes
allow_plaintext = codes "--allow-plaintext"

-- What the options keep, where all the arguments are given.
abbrev Kept : List Bytes → DedicatedServerConfig → Type 0
Kept args c =
    ((c.tls_enabled ≡ true) ⊎ (has_text allow_plaintext args ≡ true))
    × (1 ≤ c.history_limit)
    × (c.history_limit ≤ 500)
    × (c.port < port_bound)

-- The same of what a value gives, of an argument and of the whole.
Given : List Bytes → Parsing ⊎ Bytes → Type 0
Given args (inl p) = Kept args p.config
Given args (inr _) = Unit

Classified : List Bytes → Argument → Type 0
unfolding Given
Classified args (taken p) = Kept args p.config
Classified args (takes_value f) = (value : Bytes) → Given args (f value)
Classified args (ends _ _) = Unit

Launched : List Bytes → Launch → Type 0
Launched args (runs c) = Kept args c
Launched args (returns _ _) = Unit

flags-Kept :
    (args : List Bytes) (p : Parsing)
    → Kept args p.config
    → All
        (λ (o : Bytes × Argument). Classified args o.1)
        (map
          (λ (o : Bytes × (DedicatedServerConfig → DedicatedServerConfig)).
            (o.0, taken (configured p o.1)))
          flags)
unfolding flags configured Classified
flags-Kept args p (tls, low, high, port) = (
  (tls, low, high, port),
  (
    (tls, low, high, port),
    ((tls, low, high, port), ((inl refl, low, high, port), ((tls, low, high, port), tt))),
  ),
)

set_history_limit-Given :
    (args : List Bytes) (value : Bytes) (p : Parsing)
    → Kept args p.config
    → Given args (set_history_limit value p)
unfolding set_history_limit Given configured max_history_page
set_history_limit-Given args value p (tls, low, high, port) = step (stoul value)
  where
    step :
        (r : Option ℕ)
        → Given args (elim r [
          | none ↦ inr (text "--history-limit must be between 1 and 500")
          | some limit ↦
              if ltb limit 1 || ltb max_history_page limit
              then inr (text "--history-limit must be between 1 and 500")
              else inl (configured p (λ c. record c { history_limit = limit }))
        ])
    step none = tt
    step (some limit) =
        if-elim (Given args) (ltb limit 1 || ltb max_history_page limit) (λ _. tt)
          (λ e. (tls, ground (arith, e), ground (arith, e), port))

set_publish-Given :
    (args : List Bytes) (value : Bytes) (p : Parsing)
    → Kept args p.config
    → Given args (set_publish value p)
unfolding set_publish Given configured
set_publish-Given args value p k =
    elim (parse_browser_address value)
      as (λ r. Given args (elim r [
        | none ↦ inr (text "Invalid browser address")
        | some host ↦
            inl (configured p (λ c. record c { browser_host = host; publish_to_browser = true }))
      ])) [ none ↦ tt | some host ↦ k ]

values-Kept :
    (args : List Bytes) (p : Parsing)
    → Kept args p.config
    → All
        (λ (o : Bytes × Argument). Classified args o.1)
        (map
          (λ (o : Bytes × (Bytes → Parsing → Parsing ⊎ Bytes)). (o.0, takes_value (λ v. o.1 v p)))
          values)
unfolding values stores configured Classified Given set_name
values-Kept args p (tls, low, high, port) =
    let k : Kept args p.config = (tls, low, high, port) in
    (
      λ v. k,
      (
        λ v. k,
        (
          λ v. k,
          (
            λ v. set_history_limit-Given args v p k,
            (
              λ v. (inl refl, low, high, port),
              (
                λ v. (inl refl, low, high, port),
                (
                  λ v. k,
                  (
                    λ v. k,
                    (
                      λ v. k,
                      (
                        λ v. k,
                        (
                          λ v. k,
                          (
                            λ v. k,
                            (λ v. k, (λ v. set_publish-Given args v p k, (λ v. k, (λ v. k, tt)))),
                          ),
                        ),
                      ),
                    ),
                  ),
                ),
              ),
            ),
          ),
        ),
      ),
    )

positional-Classified :
    (args : List Bytes) (p : Parsing) (arg : Bytes)
    → Kept args p.config
    → Classified args (positional p arg)
unfolding positional Classified
positional-Classified args p arg k =
    if-elim (Classified args) (bytes_eq arg (codes "--help") || bytes_eq arg (codes "-h")) (λ _. tt)
      (λ _.
        if-elim (Classified args) (is_option arg) (λ _. tt)
          (λ _.
            if-elim (Classified args) (not p.positional_password_set) (λ _. k)
              (λ _. if-elim (Classified args) (not p.positional_log_set) (λ _. k) (λ _. tt))))

classify-Classified :
    (args : List Bytes) (p : Parsing) (arg : Bytes)
    → (bytes_eq arg allow_plaintext ≡ true → has_text allow_plaintext args ≡ true)
    → Kept args p.config
    → Classified args (classify p arg)
unfolding classify Classified configured
classify-Classified args p arg there (tls, low, high, port) =
    let k : Kept args p.config = (tls, low, high, port) in
    if-elim (Classified args) (bytes_eq arg allow_plaintext) (λ e. (inr (there e), low, high, port))
      (λ _. select_All (Classified args) arg _ _ (flags-Kept args p k) (
        select_All (Classified args) arg _ _ (values-Kept args p k)
          (positional-Classified args p arg k)))
