-- ===== src/Network/Directory/Invariant.antt =====
-- What holds of the entries of a directory, whatever is requested.
use chatbox.Common.{
  is_empty-ne-nil, ℕ, ◌^◌, ◌<◌, ◌≡◌, refl, sym, ◌≢◌, false, Option, none, some, List, [], ◌∷◌,
  arith, is_empty, All, Bytes, codes, text, bytes_eq,
}
use chatbox.Common.{put_key-All, drop_key, drop_key-All, bytes_eq_iff, if-elim}
use chatbox.Helpers.{split}
use chatbox.Network.Fields.{parse_u16_field, sanitize_browser_field, browser_entry_key, port_bound}
use chatbox.Network.Fields.Laws.{
  IsField, sanitize_browser_field-IsField, parse_u16_field-lt, count_field-lt,
}
use chatbox.Network.Directory.{
  new_entry, BrowserEntry, ServerBrowser, host_max_len, browser_name_max_len, or_default,
  remove_stale, is_fresh, put_entry, process_register, process_unregister, process_list,
  process_parts, process_request,
}

-- An entry that can be printed and read again.
abbrev pub IsEntry : BrowserEntry → Type 0
IsEntry entry =
    IsField browser_name_max_len entry.name
    × IsField host_max_len entry.host
    × (entry.name ≢ [])
    × (entry.host ≢ [])
    × (entry.port < port_bound)
    × (entry.users < 2 ^ 31)

-- The entries stand under their own keys, in order, and each is well formed.
abbrev pub IsFiled : Bytes × BrowserEntry → Type 0
IsFiled e = IsEntry e.1 × (e.0 ≡ browser_entry_key e.1.host e.1.port e.1.name)

abbrev pub IsBrowser : ServerBrowser → Type 0
IsBrowser browser = All IsFiled browser

remove_stale-All {κ} :
    (P : Bytes × BrowserEntry → Type κ) (browser : ServerBrowser) (now : ℕ)
    → All P browser
    → All P (remove_stale browser now)
unfolding remove_stale
remove_stale-All P [] now h = tt
remove_stale-All P ((key, entry) ∷ browser) now (h, hs) =
    if-elim (All P) (is_fresh now entry) (λ _. (h, remove_stale-All P browser now hs))
      (λ _. remove_stale-All P browser now hs)

put_entry-IsBrowser :
    (browser : ServerBrowser) (now : ℕ) (entry : BrowserEntry)
    → IsEntry entry
    → IsBrowser browser
    → IsBrowser (put_entry browser now entry)
unfolding put_entry
put_entry-IsBrowser browser now entry e v =
    put_key-All IsFiled key entry (remove_stale browser now) (e, refl)
      (λ k w _ same. (e, sym ((bytes_eq_iff key k).0 same)))
      (remove_stale-All IsFiled browser now v)
  where
    key : Bytes
    key = browser_entry_key entry.host entry.port entry.name

or_default-IsField :
    (s : Bytes)
    → IsField browser_name_max_len s
    → IsField browser_name_max_len (or_default s (codes "chatbox room"))
      × (or_default s (codes "chatbox room") ≢ [])
unfolding or_default
or_default-IsField [] h = (
  (
    (
      refl,
      (refl, (refl, (refl, (refl, (refl, (refl, (refl, (refl, (refl, (refl, (refl, tt))))))))))),
    ),
    omega arith,
  ),
  cc,
)
or_default-IsField (x ∷ xs) h = (h, cc)

new_entry-IsEntry :
    (now : ℕ) (name host : Bytes) (port : ℕ) (password users tls : Bytes)
    → is_empty (sanitize_browser_field host host_max_len) ≡ false
    → port < port_bound
    → IsEntry
        (new_entry now name (sanitize_browser_field host host_max_len) port password users tls)
unfolding new_entry
new_entry-IsEntry now name host port password users tls h p =
    let (field, some_name) =
      or_default-IsField (sanitize_browser_field name browser_name_max_len)
        (sanitize_browser_field-IsField name browser_name_max_len) in
    (
      field,
      sanitize_browser_field-IsField host host_max_len,
      some_name,
      is_empty-ne-nil (sanitize_browser_field host host_max_len) h,
      p,
      count_field-lt users,
    )

-- What is asked of the browser that a request leaves.
abbrev Keeps : ServerBrowser × List Bytes → Type 0
Keeps r = IsBrowser r.0

process_register-IsBrowser :
    (browser : ServerBrowser) (now : ℕ) (fields : List Bytes)
    → IsBrowser browser
    → IsBrowser (process_register browser now fields).0
unfolding process_register
process_register-IsBrowser browser now (name ∷ host ∷ port ∷ password ∷ users ∷ tls ∷ more) v =
    if-elim Keeps (is_empty clean_host) (λ _. v)
      (λ some_host. step some_host (parse_u16_field port) refl)
  where
    clean_host : Bytes
    clean_host = sanitize_browser_field host host_max_len

    step :
        is_empty clean_host ≡ false
        → (r : Option ℕ) → parse_u16_field port ≡ r
        → Keeps (elim r [
          | none ↦ (browser, text "ERROR|Invalid host or port" ∷ [])
          | some number ↦ (
            put_entry browser now (new_entry now name clean_host number password users tls),
            text "OK" ∷ [],
          )
        ])
    step some_host none e = v
    step some_host (some number) e =
        put_entry-IsBrowser browser now (new_entry now name clean_host number password users tls)
          (new_entry-IsEntry now name host number password users tls some_host
            (parse_u16_field-lt port number e))
          v
process_register-IsBrowser browser now _ v = v

process_unregister-IsBrowser :
    (browser : ServerBrowser) (fields : List Bytes)
    → IsBrowser browser
    → IsBrowser (process_unregister browser fields).0
unfolding process_unregister
process_unregister-IsBrowser browser (host ∷ port ∷ name ∷ more) v = step (parse_u16_field port)
  where
    dropped : ℕ → ServerBrowser
    dropped number =
        drop_key
          (browser_entry_key (sanitize_browser_field host host_max_len) number
            (sanitize_browser_field name browser_name_max_len))
          browser

    step :
        (r : Option ℕ)
        → Keeps (elim r [
          | none ↦ (browser, text "ERROR|Invalid port" ∷ [])
          | some number ↦ (dropped number, text "OK" ∷ [])
        ])
    step none = v
    step (some number) = drop_key-All IsFiled _ browser v
process_unregister-IsBrowser browser _ v = v

process_parts-IsBrowser :
    (browser : ServerBrowser) (now : ℕ) (parts : List Bytes)
    → IsBrowser browser
    → IsBrowser (process_parts browser now parts).0
unfolding process_parts process_list
process_parts-IsBrowser browser now [] v = v
process_parts-IsBrowser browser now (command ∷ fields) v =
    if-elim Keeps (bytes_eq command (codes "REGISTER"))
      (λ _. process_register-IsBrowser browser now fields v)
      (λ _.
        if-elim Keeps (bytes_eq command (codes "UNREGISTER"))
          (λ _. process_unregister-IsBrowser browser fields v)
          (λ _.
            if-elim Keeps (bytes_eq command (codes "LIST"))
              (λ _. remove_stale-All IsFiled browser now v) (λ _. v)))

-- Whatever is requested, and whenever, each entry of the directory stays under its own key, with a name
-- and a host that are there, are not too long and hold no `|` and no control character, with a port
-- and with a number of users that a client can read.
pub process_request-IsBrowser :
    (browser : ServerBrowser) (now : ℕ) (request : Bytes)
    → IsBrowser browser
    → IsBrowser (process_request browser now request).0
unfolding process_request
process_request-IsBrowser browser now request v =
    process_parts-IsBrowser browser now (split request b'|') v
