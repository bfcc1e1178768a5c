-- ===== src/Network/Directory/Client/Register.antt =====
-- A server that is registered stands in the directory.
use chatbox.Common.{
  ℕ, ◌≤◌, ◌<◌, ◌≡◌, refl, ap, ◌∙◌, ◌≢◌, inl, inr, true, false, none, some, List, [], ◌∷◌, arith,
  Bool-cases, length, is_empty, All, Bytes, codes, text, bytes_eq, AreBytes,
}
use chatbox.Common.{at_key, at_key-put_key_same, All-imp}
use chatbox.Protocol.Decimal.{to_string}
use chatbox.Helpers.{split, join_all}
use chatbox.Helpers.Laws.{has_no, split-join_all, join_all-All, length-join_all, ends_full}
use chatbox.Network.Fields.{browser_entry_key}
use chatbox.Network.Fields.Laws.{
  parse_u16_field-to_string, count_field-to_string, sanitize_browser_field_same,
}
use chatbox.Network.Directory.{
  BrowserEntry, ServerBrowser, flag, or_default, new_entry, put_entry, process_register,
  process_parts, process_request, session, write_payload, host_max_len, browser_name_max_len,
}
use chatbox.Network.Directory.Invariant.{IsEntry}
use chatbox.Network.Directory.Client.{
  register_request, register_server, registered, send_request, receive, received, max_responses,
}
use chatbox.Network.Directory.Client.Exchange.{
  after, receive-response, send_request-session, IsSendable,
}
use chatbox.Network.Directory.Client.Lines.{
  IsPart, field-IsPart, to_string-IsPart, flag-IsPart, is_one-flag,
}

register_fields : BrowserEntry → List Bytes
register_fields entry =
    codes "REGISTER"
    ∷ entry.name
    ∷ entry.host
    ∷ to_string entry.port
    ∷ flag entry.has_password
    ∷ to_string entry.users
    ∷ flag entry.uses_tls
    ∷ []

register_request-join_all :
    (entry : BrowserEntry)
    → IsEntry entry
    → register_request entry ≡ join_all (register_fields entry) b'|'
unfolding register_request register_fields join_all
register_request-join_all entry (name, host, _, _, _, _) =
    rw (sanitize_browser_field_same entry.name browser_name_max_len name)
      (rw (sanitize_browser_field_same entry.host host_max_len host) refl)

register_fields-IsPart :
    (entry : BrowserEntry)
    → IsEntry entry
    → AreBytes entry.name
    → AreBytes entry.host
    → All IsPart (register_fields entry)
unfolding register_fields has_no
register_fields-IsPart entry (name, host, _, _, port, users) name_bytes host_bytes = (
  (omega arith, refl, bytes),
  (
    field-IsPart browser_name_max_len entry.name (omega arith) name name_bytes,
    (
      field-IsPart host_max_len entry.host (omega arith) host host_bytes,
      (
        to_string-IsPart entry.port (omega (arith, port)),
        (
          flag-IsPart entry.has_password,
          (to_string-IsPart entry.users users, (flag-IsPart entry.uses_tls, tt)),
        ),
      ),
    ),
  ),
)
  where
    bytes : AreBytes (codes "REGISTER")
    bytes = (
      omega arith,
      (
        omega arith,
        (
          omega arith,
          (omega arith, (omega arith, (omega arith, (omega arith, (omega arith, tt))))),
        ),
      ),
    )

ends_full_lem : (entry : BrowserEntry) → ends_full (register_fields entry) ≡ true
unfolding register_fields ends_full flag
ends_full_lem entry = elim (Bool-cases entry.uses_tls) [ inl e ↦ rw e refl | inr e ↦ rw e refl ]

-- The entry with the time of the request.
pub stamped : ℕ → BrowserEntry → BrowserEntry
stamped now entry = record entry { updated_at = now }

or_default-ne : (s otherwise : Bytes) → s ≢ [] → or_default s otherwise ≡ s
unfolding or_default
or_default-ne [] otherwise ne = absurd (ne refl)
or_default-ne (x ∷ xs) otherwise ne = refl

is_empty-ne : (s : Bytes) → s ≢ [] → is_empty s ≡ false
is_empty-ne [] ne = absurd (ne refl)
is_empty-ne (x ∷ xs) ne = refl

process_parts-register_fields :
    (browser : ServerBrowser) (now : ℕ) (entry : BrowserEntry)
    → IsEntry entry
    → process_parts browser now (register_fields entry)
      ≡ (put_entry browser now (stamped now entry), text "OK" ∷ [])
unfolding process_parts process_register register_fields new_entry stamped bytes_eq
process_parts-register_fields browser now entry (name, host, some_name, some_host, port, users) =
    rw (sanitize_browser_field_same entry.host host_max_len host) (
      rw (is_empty-ne entry.host some_host) (
        rw (parse_u16_field-to_string entry.port port) (
          rw (sanitize_browser_field_same entry.name browser_name_max_len name) (
            rw (or_default-ne entry.name (codes "chatbox room") some_name) (
              rw (is_one-flag entry.has_password) (
                rw (is_one-flag entry.uses_tls) (
                  rw (count_field-to_string entry.users users)
                    (rw (sanitize_browser_field_same entry.host host_max_len host) refl))))))))

process_request-register_request :
    (browser : ServerBrowser) (now : ℕ) (entry : BrowserEntry)
    → IsEntry entry
    → AreBytes entry.name
    → AreBytes entry.host
    → process_request browser now (register_request entry)
      ≡ (put_entry browser now (stamped now entry), text "OK" ∷ [])
unfolding process_request
process_request-register_request browser now entry h name_bytes host_bytes =
    ap (process_parts browser now) (
      ap (λ request. split request b'|') (register_request-join_all entry h)
      ∙ split-join_all b'|' (register_fields entry)
          (All-imp IsPart (λ f. has_no b'|' f ≡ true) (λ f p. p.1) (register_fields entry)
            (register_fields-IsPart entry h name_bytes host_bytes))
          (ends_full_lem entry))
    ∙ process_parts-register_fields browser now entry h

length-register_fields : (entry : BrowserEntry) → 0 < length (join_all (register_fields entry) b'|')
unfolding register_fields join_all
length-register_fields entry = omega arith

count_fields : (entry : BrowserEntry) → length (register_fields entry) ≡ 7
unfolding register_fields
count_fields entry = omega arith

register_request-IsSendable :
    (entry : BrowserEntry)
    → IsEntry entry
    → AreBytes entry.name
    → AreBytes entry.host
    → IsSendable (register_request entry)
register_request-IsSendable entry h name_bytes host_bytes =
    let parts = register_fields-IsPart entry h name_bytes host_bytes in
    let long =
      length-join_all 63 b'|' (register_fields entry)
        (All-imp IsPart (λ f. length f ≤ 63) (λ f p. p.0) (register_fields entry) parts) in
    rw (register_request-join_all entry h) (
      join_all-All (λ b. b < 256) b'|' (register_fields entry) (omega arith)
          (All-imp IsPart AreBytes (λ f p. p.2) (register_fields entry) parts),
      length-register_fields entry,
      omega (arith, long, count_fields entry),
    )

ok-IsSendable : IsSendable (text "OK")
unfolding text
ok-IsSendable = ((omega arith, (omega arith, tt)), omega arith, omega arith)

-- An entry that a client registers stands in the directory under its key, with the time of the
-- request, and the client sees that it succeeded. The entry is well formed and consists of bytes.
pub register_server_lem :
    (browser : ServerBrowser) (now : ℕ) (entry : BrowserEntry)
    → IsEntry entry
    → AreBytes entry.name
    → AreBytes entry.host
    → (at_key
          (browser_entry_key entry.host entry.port entry.name)
          (process_request browser now (register_request entry)).0
        ≡ some (stamped now entry))
      × (register_server (λ payload. (session browser now payload).1) entry ≡ none)
unfolding register_server registered send_request put_entry stamped after bytes_eq text
register_server_lem browser now entry h name_bytes host_bytes = (
  rw (process_request-register_request browser now entry h name_bytes host_bytes) (
      at_key-put_key_same (browser_entry_key entry.host entry.port entry.name) (stamped now entry)
        _),
  ap registered (
      send_request-session browser now (register_request entry)
        (register_request-IsSendable entry h name_bytes host_bytes)
      ∙ ap
          (λ (r : ServerBrowser × List Bytes). received (receive max_responses (write_payload r.1)))
          (process_request-register_request browser now entry h name_bytes host_bytes)
      ∙ ap received (receive-response 999 (text "OK") [] ok-IsSendable)),
)
