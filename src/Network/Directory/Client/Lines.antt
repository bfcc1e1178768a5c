-- ===== src/Network/Directory/Client/Lines.antt =====
-- What a client reads in the line of a server.
use chatbox.Common.{
  ℕ, ◌-◌, ◌*◌, ◌/◌, ◌^◌, ◌≤◌, ◌<◌, ◌≡◌, refl, ap, ◌∙◌, subst, ◌≢◌, Bool, true, false, not, ◌||◌,
  some, List, [], ◌∷◌, arith, ◌==◌, length, is_empty, All, Bytes, codes, bytes_eq, AreBytes,
}
use chatbox.Common.{All-imp}
use chatbox.Protocol.Decimal.{to_string}
use chatbox.Protocol.Decimal.RoundTrip.{
  read_digits-to_string, to_string-IsDigit, IsDigit, length-to_string,
}
use chatbox.Protocol.Rules.{iscntrl}
use chatbox.Helpers.{split, join_all}
use chatbox.Helpers.Laws.{
  ends_full, has_no, split-join_all, join_all-All, length-join_all, has_no-of_All,
}
use chatbox.Network.Fields.{port_bound}
use chatbox.Network.Fields.Laws.{parse_u16_field-to_string, count_field-to_string, IsField}
use chatbox.Network.Directory.{
  BrowserEntry, flag, is_one, server_line, age_text, second, host_max_len, browser_name_max_len,
  is_fresh,
}
use chatbox.Network.Directory.Client.Exchange.{IsSendable}
use chatbox.Network.Directory.Client.{read_server}
use chatbox.Network.Directory.Invariant.{IsEntry}

-- An entry of bytes, well formed, and not of a time to come.
abbrev pub IsListable : ℕ → BrowserEntry → Type 0
IsListable now entry =
    IsEntry entry × AreBytes entry.name × AreBytes entry.host × (entry.updated_at ≤ now)

-- The entry as a client has it: with the time, by its own clock, of so many whole seconds ago.
unfoldable pub seen : ℕ → ℕ → BrowserEntry → BrowserEntry
seen now client_now entry = record entry {
  updated_at = client_now - (now - entry.updated_at) / second * second;
}

server_fields : ℕ → BrowserEntry → List Bytes
server_fields now entry =
    codes "SERVER"
    ∷ entry.name
    ∷ entry.host
    ∷ to_string entry.port
    ∷ flag entry.has_password
    ∷ to_string entry.users
    ∷ flag entry.uses_tls
    ∷ age_text now entry
    ∷ []

server_line-join_all :
    (now : ℕ) (entry : BrowserEntry)
    → server_line now entry ≡ join_all (server_fields now entry) b'|'
unfolding server_line server_fields join_all
server_line-join_all now entry = refl

-- A field that is short, of bytes and without the delimiter.
abbrev pub IsPart : Bytes → Type 0
IsPart field = (length field ≤ 63) × (has_no b'|' field ≡ true) × AreBytes field

pub field-IsPart :
    (most : ℕ) (field : Bytes) → most ≤ 63 → IsField most field → AreBytes field → IsPart field
field-IsPart most field h (clean, short) bytes = (
  omega (arith, h, short),
  has_no-of_All b'|' field (
      All-imp (λ ch. (iscntrl ch || ch == b'|') ≡ false) (λ ch. (ch == b'|') ≡ false)
        (λ ch e. ground (arith, e)) field clean),
  bytes,
)

pub to_string-IsPart : (n : ℕ) → n < 2 ^ 31 → IsPart (to_string n)
to_string-IsPart n h = (
  omega (arith, length-to_string 9 n (omega (arith, h))),
  has_no-of_All b'|' (to_string n) (
      All-imp IsDigit (λ ch. (ch == b'|') ≡ false) (λ ch (low, high). ground (arith, high))
        (to_string n) (to_string-IsDigit n)),
  All-imp IsDigit (λ b. b < 256) (λ ch (low, high). omega (arith, high)) (to_string n)
      (to_string-IsDigit n),
)

pub flag-IsPart : (b : Bool) → IsPart (flag b)
unfolding flag has_no
flag-IsPart true = (omega arith, refl, (omega arith, tt))
flag-IsPart false = (omega arith, refl, (omega arith, tt))

age_text_past :
    (now : ℕ) (entry : BrowserEntry)
    → entry.updated_at ≤ now
    → age_text now entry ≡ to_string ((now - entry.updated_at) / second)
unfolding age_text
age_text_past now entry h = ground (arith, h)

age-lt :
    (now : ℕ) (entry : BrowserEntry)
    → is_fresh now entry ≡ true
    → (now - entry.updated_at) / second < 2 ^ 31
unfolding is_fresh
age-lt now entry h = ground (arith, h)

server_fields-IsPart :
    (now : ℕ) (entry : BrowserEntry)
    → IsListable now entry
    → is_fresh now entry ≡ true
    → All IsPart (server_fields now entry)
unfolding server_fields has_no
server_fields-IsPart now entry ((name, host, _, _, port, users), name_bytes, host_bytes, past)
      fresh =
    (
      (omega arith, refl, bytes),
      (
        field-IsPart browser_name_max_len entry.name (omega arith) name name_bytes,
        (
          field-IsPart host_max_len entry.host (omega arith) host host_bytes,
          (
            to_string-IsPart entry.port (omega (arith, port)),
            (
              flag-IsPart entry.has_password,
              (
                to_string-IsPart entry.users users,
                (
                  flag-IsPart entry.uses_tls,
                  (
                    rw (age_text_past now entry past) (
                        to_string-IsPart ((now - entry.updated_at) / second)
                          (age-lt now entry fresh)),
                    tt,
                  ),
                ),
              ),
            ),
          ),
        ),
      ),
    )
  where
    bytes : AreBytes (codes "SERVER")
    bytes =
        (omega arith, (omega arith, (omega arith, (omega arith, (omega arith, (omega arith, tt))))))

length-server_fields : (now : ℕ) (entry : BrowserEntry) → length (server_fields now entry) ≡ 8
unfolding server_fields
length-server_fields now entry = omega arith

length-server_line : (now : ℕ) (entry : BrowserEntry) → 0 < length (server_line now entry)
unfolding server_line
length-server_line now entry = omega arith

pub server_line-IsSendable :
    (now : ℕ) (entry : BrowserEntry)
    → IsListable now entry
    → is_fresh now entry ≡ true
    → IsSendable (server_line now entry)
server_line-IsSendable now entry h fresh =
    let parts = server_fields-IsPart now entry h fresh in
    let long =
      length-join_all 63 b'|' (server_fields now entry)
        (All-imp IsPart (λ f. length f ≤ 63) (λ f p. p.0) (server_fields now entry) parts) in
    rw (server_line-join_all now entry) (
      join_all-All (λ b. b < 256) b'|' (server_fields now entry) (omega arith)
          (All-imp IsPart AreBytes (λ f p. p.2) (server_fields now entry) parts),
      subst (λ line. 0 < length line) (server_line-join_all now entry)
          (length-server_line now entry),
      omega (arith, long, length-server_fields now entry),
    )

pub is_one-flag : (b : Bool) → is_one (flag b) ≡ b
unfolding is_one flag bytes_eq
is_one-flag true = refl
is_one-flag false = refl

ends_full_lem :
    (now : ℕ) (entry : BrowserEntry)
    → entry.updated_at ≤ now
    → ends_full (server_fields now entry) ≡ true
unfolding ends_full server_fields
ends_full_lem now entry past = rw (age_text_past now entry past) (
    some_digits (to_string ((now - entry.updated_at) / second))
      (read_digits-to_string ((now - entry.updated_at) / second)).1)
  where
    some_digits : (xs : Bytes) → xs ≢ [] → not (is_empty xs) ≡ true
    some_digits [] ne = absurd (ne refl)
    some_digits (x ∷ xs) ne = refl

read_server-fields :
    (now client_now : ℕ) (entry : BrowserEntry)
    → entry.port < port_bound
    → entry.users < 2 ^ 31
    → entry.updated_at ≤ now
    → is_fresh now entry ≡ true
    → read_server client_now (server_fields now entry) ≡ some (seen now client_now entry)
unfolding read_server server_fields seen bytes_eq
read_server-fields now client_now entry port users past fresh =
    rw (parse_u16_field-to_string entry.port port, read_server)
      (rw (is_one-flag entry.has_password) (
        rw (is_one-flag entry.uses_tls) (
          rw (count_field-to_string entry.users users) (
            rw (age_text_past now entry past) (
              rw
                (count_field-to_string ((now - entry.updated_at) / second) (age-lt now entry fresh))
                refl)))))

-- The line of an entry is read as the entry, with the time that the client works out.
pub read_server-server_line :
    (now client_now : ℕ) (entry : BrowserEntry)
    → IsListable now entry
    → is_fresh now entry ≡ true
    → read_server client_now (split (server_line now entry) b'|') ≡ some (seen now client_now entry)
read_server-server_line now client_now entry
      ((name, host, some_name, some_host, port, users), name_bytes, host_bytes, past) fresh =
    let h : IsListable now entry =
      ((name, host, some_name, some_host, port, users), name_bytes, host_bytes, past) in
    ap (read_server client_now) (
      ap (λ line. split line b'|') (server_line-join_all now entry)
      ∙ split-join_all b'|' (server_fields now entry)
          (All-imp IsPart (λ f. has_no b'|' f ≡ true) (λ f p. p.1) (server_fields now entry)
            (server_fields-IsPart now entry h fresh))
          (ends_full_lem now entry past))
    ∙ read_server-fields now client_now entry port users past fresh
