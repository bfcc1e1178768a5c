-- ===== src/Network/Directory/Client/Listing.antt =====
-- What a client lists is what the directory has.
use chatbox.Common.{
  Bool, inl, inr, text, ℕ, zero, suc, ◌≡◌, refl, sym, ap, ◌∙◌, true, false, none, some, List, [],
  ◌∷◌, map, arith, ltb, if◌then◌else◌, Bool-cases, length, All, Bytes, codes, bytes_eq,
}
use chatbox.Common.{take, if-elim}
use chatbox.Helpers.{split, split_from}
use chatbox.Network.Directory.{
  process_parts, process_list, BrowserEntry, ServerBrowser, entries, remove_stale, is_fresh,
  server_line, server_lines, write_payload, session, process_request,
}
use chatbox.Network.Directory.Client.{
  ended, responded, starts_with_error, max_responses, is_last, receive, received, send_request,
  read_servers, listed, list_servers,
}
use chatbox.Network.Directory.Client.Exchange.{
  after, receive-response, send_request-session, IsSendable,
}
use chatbox.Network.Directory.Client.Lines.{
  IsListable, seen, server_line-IsSendable, read_server-server_line,
}

abbrev IsFresh : ℕ → Bytes × BrowserEntry → Type 0
IsFresh now e = IsListable now e.1 × (is_fresh now e.1 ≡ true)

take_nil {ℓ} : {A : Type ℓ} (n : ℕ) → take {A = A} n [] ≡ []
take_nil zero = refl
take_nil (suc n) = refl

end-IsSendable : IsSendable (codes "END")
end-IsSendable = ((omega arith, (omega arith, (omega arith, tt))), omega arith, omega arith)

is_last-server_line : (now : ℕ) (entry : BrowserEntry) → is_last (server_line now entry) ≡ false
unfolding is_last server_line bytes_eq starts_with_error
is_last-server_line now entry = refl

-- The lines of the servers are received up to the limit.
receive-server_lines :
    (left now : ℕ) (browser : ServerBrowser)
    → All (IsFresh now) browser
    → receive left (write_payload (server_lines now browser))
      ≡ some (take left (server_lines now browser))
unfolding server_lines receive after bytes_eq is_last
receive-server_lines zero now browser h = refl
receive-server_lines (suc left) now [] h =
    receive-response left (codes "END") [] end-IsSendable
    ∙ ap (λ rest. some (codes "END" ∷ rest)) (sym (take_nil left))
receive-server_lines (suc left) now ((key, entry) ∷ browser) ((listable, fresh), hs) =
    receive-response left (server_line now entry) (server_lines now browser)
      (server_line-IsSendable now entry listable fresh)
    ∙ rw (is_last-server_line now entry, after) (rw (receive-server_lines left now browser hs) refl)

found : ℕ → ℕ → List (Bytes × BrowserEntry) → List BrowserEntry
found now client_now browser = map (λ e. seen now client_now e.1) browser

is_end-server_line :
    (now : ℕ) (entry : BrowserEntry) → bytes_eq (server_line now entry) (codes "END") ≡ false
unfolding server_line bytes_eq
is_end-server_line now entry = refl

-- The last line is among those that were received exactly where there were fewer servers.
read_servers-take :
    (left now client_now : ℕ) (browser : ServerBrowser)
    → All (IsFresh now) browser
    → read_servers client_now (take left (server_lines now browser))
      ≡ (if ltb (length browser) left then some (found now client_now browser) else none)
unfolding read_servers server_lines found bytes_eq
read_servers-take zero now client_now browser h = ground arith
read_servers-take (suc left) now client_now [] h = ground arith
read_servers-take (suc left) now client_now ((key, entry) ∷ browser) ((listable, fresh), hs) =
    rw (is_end-server_line now entry, read_servers)
      (rw (read_server-server_line now client_now entry listable fresh) (
        rw (read_servers-take left now client_now browser hs)
          (elim (Bool-cases (ltb (length browser) left)) [
            | inl e ↦
                let same : ltb (suc (length browser)) (suc left) ≡ true = ground (arith, e) in
                rw e (rw same refl)
            | inr e ↦
                let same : ltb (suc (length browser)) (suc left) ≡ false = ground (arith, e) in
                rw e (rw same refl)
          ])))

abbrev IsListableAll : ℕ → ServerBrowser → Type 0
IsListableAll now browser = All (λ e. IsListable now e.1) browser

remove_stale-IsFresh :
    (browser : ServerBrowser) (now : ℕ)
    → IsListableAll now browser
    → All (IsFresh now) (remove_stale browser now)
unfolding remove_stale
remove_stale-IsFresh [] now h = tt
remove_stale-IsFresh ((key, entry) ∷ browser) now (h, hs) =
    if-elim (All (IsFresh now)) (is_fresh now entry)
      (λ fresh. ((h, fresh), remove_stale-IsFresh browser now hs))
      (λ _. remove_stale-IsFresh browser now hs)

-- What is not stale is what `entries` gives.
found-remove_stale :
    (now client_now : ℕ) (browser : ServerBrowser)
    → (found now client_now (remove_stale browser now)
        ≡ map (seen now client_now) (entries browser now))
      × (length (remove_stale browser now) ≡ length (entries browser now))
unfolding found remove_stale entries
found-remove_stale now client_now [] = (refl, refl)
found-remove_stale now client_now ((key, entry) ∷ browser) =
    let (same, long) = found-remove_stale now client_now browser in
    elim (Bool-cases (is_fresh now entry)) [
      | inl e ↦ rw e (ap (λ rest. seen now client_now entry ∷ rest) same, ap suc long)
      | inr e ↦ rw e (same, long)
    ]

received-take :
    (left now : ℕ) (browser : ServerBrowser)
    → received (some (take (suc left) (server_lines now browser)))
      ≡ responded (take (suc left) (server_lines now browser))
unfolding received server_lines
received-take left now [] = refl
received-take left now ((key, entry) ∷ browser) = refl

process_request-list :
    (browser : ServerBrowser) (now : ℕ)
    → process_request browser now (codes "LIST")
      ≡ (remove_stale browser now, server_lines now (remove_stale browser now))
unfolding process_request process_parts process_list split split_from bytes_eq
process_request-list browser now = refl

list-IsSendable : IsSendable (codes "LIST")
list-IsSendable =
    ((omega arith, (omega arith, (omega arith, (omega arith, tt)))), omega arith, omega arith)

ended_lem :
    (b : Bool) (found_entries : List BrowserEntry)
    → ended (if b then some found_entries else none)
      ≡ (if b then inl found_entries else inr (text "Browser response did not include END"))
unfolding ended
ended_lem true found_entries = refl
ended_lem false found_entries = refl

-- A client that lists the servers of a directory has the entries of the directory, in their order,
-- each as it is there but for its time; and it fails where there are a thousand of them or more,
-- since it reads at most a thousand responses. The entries are well formed, consist of bytes, and the
-- clock of the directory was not set back behind one of them.
pub list_servers-entries :
    (browser : ServerBrowser) (now client_now : ℕ)
    → All (λ e. IsListable now e.1) browser
    → list_servers (λ payload. (session browser now payload).1) client_now ≡ (
        if ltb (length (entries browser now)) max_responses
        then inl (map (seen now client_now) (entries browser now))
        else inr (text "Browser response did not include END"))
unfolding list_servers send_request listed
list_servers-entries browser now client_now h =
    let fresh = remove_stale browser now in
    let each = remove_stale-IsFresh browser now h in
    let (same, long) = found-remove_stale now client_now browser in
    ap (listed client_now) (
      send_request-session browser now (codes "LIST") list-IsSendable
      ∙ ap
          (λ (r : ServerBrowser × List Bytes). received (receive max_responses (write_payload r.1)))
          (process_request-list browser now)
      ∙ ap received (receive-server_lines max_responses now fresh each)
      ∙ received-take 999 now fresh)
    ∙ ap ended (read_servers-take max_responses now client_now fresh each)
    ∙ rw (same, long)
        (ended_lem (ltb (length (entries browser now)) max_responses)
          (map (seen now client_now) (entries browser now)))
