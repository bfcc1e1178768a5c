-- ===== src/Network/Trust.antt =====
-- Which certificates a client trusts: `normalize_fingerprint`, the trust store and `verify_peer` of
-- src/network/tls.cpp. What OpenSSL says of a certificate is an argument, and so is what else
-- happens to the files between the two times that `verify_peer` holds the lock of the store.
pub mod Store
pub mod Safety
pub mod Memory
pub mod Again
use chatbox.Common.{
  ℕ, ◌+◌, ◌-◌, Bool, true, false, not, ◌&&◌, ◌||◌, Option, none, some, List, [], ◌∷◌, ◌++◌, leb,
  ◌==◌, if◌then◌else◌, length, is_empty, Bytes, codes, text, bytes_eq,
}
use chatbox.Common.{StringMap, at_key, put_key, drop_key}
use chatbox.Protocol.Decimal.{to_string}
use chatbox.Protocol.Rules.{isxdigit, isspace}
use chatbox.Helpers.{split, cut_at}

toupper : ℕ → ℕ
toupper c = if leb b'a' c && leb c b'z' then c - 32 else c

-- The loop of `normalize_fingerprint`.
hex_digits : Bytes → Option Bytes
unfolding toupper
hex_digits [] = some []
hex_digits (c ∷ cs) = elim (hex_digits cs) [
  | none ↦ none
  | some rest ↦
      if isxdigit c
      then some (toupper c ∷ rest)
      else if not (c == b':') && not (c == b'-') && not (isspace c)
      then none
      else some rest
]

abbrev pub fingerprint_length : ℕ
fingerprint_length = 64

-- No text where the fingerprint is not one.
unfoldable pub normalize_fingerprint : Bytes → Bytes
unfolding hex_digits
normalize_fingerprint fingerprint = elim (hex_digits fingerprint) [
  | none ↦ []
  | some digits ↦ if not (length digits == fingerprint_length) then [] else digits
]

unfoldable pub address_key : Bytes → ℕ → Bytes
address_key host port = host ++ (b':' ∷ to_string port)

-- One line of the store.
read_line : StringMap Bytes → Bytes → StringMap Bytes
read_line entries line = elim (cut_at b'|' line) [
  | none ↦ entries
  | some (address, rest) ↦
      let fingerprint = normalize_fingerprint rest in
      if not (is_empty address) && not (is_empty fingerprint)
      then put_key address fingerprint entries
      else entries
]

read_lines : StringMap Bytes → List Bytes → StringMap Bytes
unfolding read_line
read_lines entries [] = entries
read_lines entries (line ∷ lines) = read_lines (read_line entries line) lines

-- The files by their paths, and the error that a write of each would meet.
pub record Disk : Type 0 where
  pub files : Bytes → Option Bytes
  pub write_error : Bytes → Option Bytes

-- A file that is not there has no lines.
unfoldable pub read_trust_store : Disk → Bytes → StringMap Bytes
unfolding read_lines
read_trust_store disk path = elim (disk.files path) [
  | none ↦ []
  | some contents ↦ read_lines [] (split contents b'\n')
]

pub store_text : StringMap Bytes → Bytes
store_text [] = []
store_text ((address, fingerprint) ∷ entries) =
    address ++ (b'|' ∷ (fingerprint ++ (b'\n' ∷ store_text entries)))

-- The file is replaced as a whole, or not at all.
unfoldable pub write_trust_store : Disk → Bytes → StringMap Bytes → Disk × Option Bytes
unfolding store_text
write_trust_store disk path entries = elim (disk.write_error path) [
  | some error ↦ (disk, some error)
  | none ↦ (
    record disk {
      files = λ p. if bytes_eq p path then some (store_text entries) else disk.files p;
    },
    none,
  )
]

pub forget_certificate : Disk → Bytes → ℕ → Bytes → Disk × Option Bytes
forget_certificate disk host port path =
    write_trust_store disk path (drop_key (address_key host port) (read_trust_store disk path))

-- What OpenSSL says of the peer's certificate.
pub record Peer : Type 0 where
  pub has_certificate : Bool
  pub fingerprint : Bytes
  pub is_verified : Bool
  pub verify_error : Bytes
  pub matches_host : Bool

-- The fields of `ClientConfig` that `verify_peer` reads.
pub record ClientConfig : Type 0 where
  pub expected_fingerprint : Bytes
  pub trust_store_path : Bytes
  pub trust_on_first_use : Bool
  -- The user's answer, for an address, the fingerprint received and the one trusted before.
  pub confirm_certificate : Option (Bytes → Bytes → Bytes → Bool)

pub data Decision : Type 0 where
  accepted : Bytes → Decision
  rejected : Bytes → Decision
  -- To be saved, with the fingerprint trusted before.
  to_save : Bytes → Decision

-- `entries.insert` for each legacy entry: one that is there already stays.
merge : StringMap Bytes → StringMap Bytes → StringMap Bytes
merge entries [] = entries
merge entries ((address, fingerprint) ∷ legacy) =
    merge
      (elim (at_key address entries) [
        | none ↦ put_key address fingerprint entries
        | some _ ↦ entries
      ])
      legacy

has_new : StringMap Bytes → StringMap Bytes → Bool
has_new entries [] = false
has_new entries ((address, _) ∷ legacy) = elim (at_key address entries) [
  | none ↦ true
  | some _ ↦ has_new entries legacy
]

abbrev legacy_path : Bytes
legacy_path = codes "trusted_fingerprints.txt"

-- The store as `verify_peer` first sees it: the entries, the files and an error of writing.
pub record Opened : Type 0 where
  pub entries : StringMap Bytes
  pub disk : Disk
  pub error : Option Bytes

unfoldable pub open_store : Bytes → ClientConfig → Disk → Opened
unfolding merge has_new
open_store default_path config disk =
    let path = config.trust_store_path in
    let entries = read_trust_store disk path in
    let legacy = read_trust_store disk legacy_path in
    if bytes_eq path default_path && not (bytes_eq path legacy_path)
    then (let merged = merge entries legacy in
        if has_new entries legacy
        then (let (after, error) = write_trust_store disk path merged in
            record { entries = merged; disk = after; error = error })
        else record { entries = merged; disk = disk; error = none })
    else record { entries = entries; disk = disk; error = none }

unfoldable pub trusted_before : StringMap Bytes → Bytes → Bytes
trusted_before entries key = elim (at_key key entries) [ none ↦ [] | some value ↦ value ]

mismatch_error : ClientConfig → Peer → Bytes → Bytes
mismatch_error config peer key =
    text "TLS certificate fingerprint mismatch for "
    ++ (key
        ++ (text "; expected "
            ++ (config.expected_fingerprint ++ (text " but received " ++ peer.fingerprint))))

blocked_error : Peer → Bytes → Bytes → Bytes
blocked_error peer key previous =
    text "BLOCKED: TLS certificate for "
    ++ (key
        ++ (text " changed. Previously trusted "
            ++ (previous
                ++ (text ", received "
                    ++ (peer.fingerprint
                        ++ text ". Review with the host before resetting trust.")))))

invalid_error : Peer → Bytes → Bytes
invalid_error peer key =
    text "TLS certificate validation failed for "
    ++ (key
        ++ (text ": "
            ++ (peer.verify_error
                ++ (text
                      ". Verify the hostname, configure a trusted CA or compare the SHA-256 fingerprint: "
                    ++ peer.fingerprint))))

-- `!expected_fingerprint.empty()` and the fingerprint is another.
pin_fails : ClientConfig → Peer → Bool
pin_fails config peer =
    let expected = normalize_fingerprint config.expected_fingerprint in
    not (is_empty config.expected_fingerprint)
    && (is_empty expected || not (bytes_eq expected peer.fingerprint))

-- `certificate_changed`.
is_changed : Peer → Bytes → Bool
is_changed peer previous = not (is_empty previous) && not (bytes_eq previous peer.fingerprint)

-- `trusted`.
is_trusted : ClientConfig → Peer → Bytes → Bool
unfolding is_changed
is_trusted config peer previous =
    not (is_changed peer previous)
    && (bytes_eq previous peer.fingerprint
        || not (is_empty config.expected_fingerprint)
        || (peer.is_verified && peer.matches_host))

-- A certificate that is not trusted yet.
review : ClientConfig → Peer → Bytes → Bytes → Option (Bytes → Bytes → Bytes → Bool) → Decision
unfolding is_changed blocked_error invalid_error
review config peer key previous (some confirm) =
    if not (confirm key peer.fingerprint previous)
    then rejected
        (text "TLS certificate rejected for " ++ (key ++ (text "; received " ++ peer.fingerprint)))
    else to_save previous
review config peer key previous none =
    if is_changed peer previous
    then rejected (blocked_error peer key previous)
    else if not config.trust_on_first_use || is_empty config.trust_store_path
    then rejected (invalid_error peer key)
    else to_save previous

-- What the certificate is decided by, with the fingerprint trusted before.
decide : ClientConfig → Peer → Bytes → Bytes → Decision
unfolding pin_fails is_trusted review mismatch_error
decide config peer key previous =
    if pin_fails config peer
    then rejected (mismatch_error config peer key)
    else if is_trusted config peer previous
    then accepted (text "Verified TLS certificate SHA-256 " ++ peer.fingerprint)
    else review config peer key previous config.confirm_certificate

pub record Verdict : Type 0 where
  pub is_accepted : Bool
  pub message : Bytes
  pub disk : Disk

refusal : Disk → Bytes → Verdict
refusal disk error = record { is_accepted = false; message = error; disk = disk }

approval : Disk → Bytes → Verdict
approval disk notice = record { is_accepted = true; message = notice; disk = disk }

-- The store has, by now, another fingerprint than the one that was reviewed.
is_overtaken : Bytes → Bytes → Option Bytes → Bool
is_overtaken previous fingerprint none = false
is_overtaken previous fingerprint (some value) =
    not (bytes_eq value previous) && not (bytes_eq value fingerprint)

saved : Peer → Disk × Option Bytes → Verdict
unfolding refusal approval
saved peer (after, some why) = refusal after why
saved peer (after, none) =
    approval after (text "Saved trusted TLS certificate: " ++ peer.fingerprint)

-- The second time under the lock, on the files as they are then.
unfoldable pub save : ClientConfig → Peer → Bytes → Bytes → Disk → Verdict
unfolding refusal is_overtaken saved
save config peer key previous disk =
    let entries = read_trust_store disk config.trust_store_path in
    if is_overtaken previous peer.fingerprint (at_key key entries)
    then refusal disk (text "Trust changed during review. Retry the connection.")
    else saved peer
        (write_trust_store disk config.trust_store_path (put_key key peer.fingerprint entries))

finish : ClientConfig → Peer → Bytes → Disk → (Disk → Disk) → Decision → Verdict
unfolding refusal approval save
finish config peer key disk meanwhile (accepted notice) = approval disk notice
finish config peer key disk meanwhile (rejected error) = refusal disk error
finish config peer key disk meanwhile (to_save previous) =
    save config peer key previous (meanwhile disk)

-- With the store open, and the error that opening it met.
judge : ClientConfig → Peer → Bytes → (Disk → Disk) → Opened → Option Bytes → Verdict
unfolding decide finish refusal
judge config peer key meanwhile opened (some why) = refusal opened.disk why
judge config peer key meanwhile opened none =
    finish config peer key opened.disk meanwhile
      (decide config peer key (trusted_before opened.entries key))

unfoldable pub verify_peer :
    Bytes → ClientConfig → Peer → Bytes → ℕ → Disk → (Disk → Disk) → Verdict
unfolding open_store judge refusal
verify_peer default_path config peer host port disk meanwhile =
    if not peer.has_certificate
    then refusal disk (text "TLS server did not present a certificate")
    else if is_empty peer.fingerprint
    then refusal disk (text "Could not calculate the TLS certificate SHA-256 fingerprint")
    else (let opened = open_store default_path config disk in
        judge config peer (address_key host port) meanwhile opened opened.error)
