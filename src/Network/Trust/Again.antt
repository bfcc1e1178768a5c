-- ===== src/Network/Trust/Again.antt =====
-- A certificate that was saved is accepted the next time.
use chatbox.Common.{
  ℕ, ◌≡◌, refl, sym, ◌∙◌, subst, inl, inr, true, false, not, ◌&&◌, Option, none, some, [], ◌∷◌,
  ◌++◌, arith, Bool-cases, is_empty, Bytes, text, bytes_eq,
}
use chatbox.Common.{
  StringMap, at_key, put_key, at_key-put_key_same, at_key-put_key_other, bytes_eq_iff,
  bytes_eq_refl, if-elim,
}
use chatbox.Network.Trust.Memory.{save-at_key}
use chatbox.Network.Trust.{
  is_changed, pin_fails, is_trusted, finish, accepted, trusted_before, has_new, decide, judge,
  legacy_path, approval, address_key, Disk, Peer, ClientConfig, read_trust_store, save, Verdict,
  Opened, open_store, merge, verify_peer,
}
use chatbox.Network.Trust.Store.{IsFingerprint, IsAddress}

at_key-merge :
    (key value : Bytes) (entries legacy : StringMap Bytes)
    → at_key key entries ≡ some value
    → at_key key (merge entries legacy) ≡ some value
unfolding merge
at_key-merge key value entries [] h = h
at_key-merge key value entries ((address, fingerprint) ∷ legacy) h =
    at_key-merge key value
      (elim (at_key address entries) [
        | none ↦ put_key address fingerprint entries
        | some _ ↦ entries
      ])
      legacy (step (at_key address entries) refl)
  where
    step :
        (found : Option Bytes)
        → at_key address entries ≡ found
        → at_key key (elim found [ none ↦ put_key address fingerprint entries | some _ ↦ entries ])
          ≡ some value
    step (some _) e = h
    step none e = elim (Bool-cases (bytes_eq key address)) [
      | inl same ↦
          let e' : at_key key entries ≡ none =
            subst (λ k. at_key k entries ≡ none) (sym ((bytes_eq_iff key address).0 same)) e in
          cc (h, e')
      | inr other ↦ at_key-put_key_other key address fingerprint entries other ∙ h
    ]

-- The entries that are taken from the old place never replace one.
open_store-at_key :
    (default_path : Bytes) (config : ClientConfig) (disk : Disk) (key value : Bytes)
    → at_key key (read_trust_store disk config.trust_store_path) ≡ some value
    → at_key key (open_store default_path config disk).entries ≡ some value
unfolding open_store
open_store-at_key default_path config disk key value h =
    if-elim (λ (o : Opened). at_key key o.entries ≡ some value)
      (bytes_eq config.trust_store_path default_path
        && not (bytes_eq config.trust_store_path legacy_path))
      (λ _.
        if-elim (λ (o : Opened). at_key key o.entries ≡ some value) (has_new entries legacy)
          (λ _. merged) (λ _. merged))
      (λ _. h)
  where
    entries : StringMap Bytes
    entries = read_trust_store disk config.trust_store_path

    legacy : StringMap Bytes
    legacy = read_trust_store disk legacy_path

    merged : at_key key (merge entries legacy) ≡ some value
    merged = at_key-merge key value entries legacy h

is_trusted_self :
    (config : ClientConfig) (peer : Peer) → is_trusted config peer peer.fingerprint ≡ true
unfolding is_trusted is_changed
is_trusted_self config peer = ground (arith, bytes_eq_refl peer.fingerprint)

decide-trusted :
    (config : ClientConfig) (peer : Peer) (key : Bytes)
    → config.expected_fingerprint ≡ []
    → decide config peer key peer.fingerprint
      ≡ accepted (text "Verified TLS certificate SHA-256 " ++ peer.fingerprint)
unfolding decide
decide-trusted config peer key pin = rw (free, decide) (rw known refl)
  where
    free : pin_fails config peer ≡ false
    free = rw (pin, pin_fails) refl

    known : is_trusted config peer peer.fingerprint ≡ true
    known = is_trusted_self config peer

judge-trusted :
    (config : ClientConfig) (peer : Peer) (key : Bytes) (meanwhile : Disk → Disk) (opened : Opened)
    (error : Option Bytes)
    → error ≡ none
    → config.expected_fingerprint ≡ []
    → at_key key opened.entries ≡ some peer.fingerprint
    → (judge config peer key meanwhile opened error).is_accepted ≡ true
unfolding judge trusted_before finish approval
judge-trusted config peer key meanwhile opened (some why) e pin known = cc e
judge-trusted config peer key meanwhile opened none e pin known =
    rw (known, trusted_before) (rw (decide-trusted config peer key pin) accepted_lem)
  where
    accepted_lem :
        (finish config peer key opened.disk meanwhile
          (accepted (text "Verified TLS certificate SHA-256 " ++ peer.fingerprint))).is_accepted
        ≡ true
    accepted_lem = refl

-- A certificate with a fingerprint that the store has for the address is accepted, without a
-- question, when no fingerprint is pinned and the store could be opened.
verify_peer-trusted :
    (default_path : Bytes) (config : ClientConfig) (peer : Peer) (host : Bytes) (port : ℕ)
    (disk : Disk) (meanwhile : Disk → Disk)
    → peer.has_certificate ≡ true
    → is_empty peer.fingerprint ≡ false
    → config.expected_fingerprint ≡ []
    → (open_store default_path config disk).error ≡ none
    → at_key (address_key host port) (read_trust_store disk config.trust_store_path)
      ≡ some peer.fingerprint
    → (verify_peer default_path config peer host port disk meanwhile).is_accepted ≡ true
unfolding verify_peer
verify_peer-trusted default_path config peer host port disk meanwhile there digits pin fine known =
    if-elim Good (not peer.has_certificate) (λ e. cc (there, e))
      (λ _.
        if-elim Good (is_empty peer.fingerprint) (λ e. cc (digits, e))
          (λ _.
            judge-trusted config peer (address_key host port) meanwhile
              (open_store default_path config disk) (open_store default_path config disk).error fine
              pin
              (open_store-at_key default_path config disk (address_key host port) peer.fingerprint
                known)))
  where
    Good : Verdict → Type 0
    Good verdict = verdict.is_accepted ≡ true

-- A certificate that `save` took for an address, no fingerprint being pinned, is accepted by a later
-- `verify_peer` that finds the files as `save` left them and can open the store, whatever was trusted
-- before. The address holds neither `|` nor an end of a line, and the fingerprint is a normal one.
pub save-verify_peer :
    (default_path : Bytes) (config : ClientConfig) (peer : Peer) (host : Bytes) (port : ℕ)
    (previous : Bytes) (disk : Disk) (meanwhile : Disk → Disk)
    → IsAddress (address_key host port)
    → IsFingerprint peer.fingerprint
    → peer.has_certificate ≡ true
    → config.expected_fingerprint ≡ []
    → (save config peer (address_key host port) previous disk).is_accepted ≡ true
    → (open_store default_path config
        (save config peer (address_key host port) previous disk).disk).error
      ≡ none
    → (verify_peer default_path config peer host port
        (save config peer (address_key host port) previous disk).disk
        meanwhile).is_accepted
      ≡ true
save-verify_peer default_path config peer host port previous disk meanwhile a f there pin done
      fine =
    verify_peer-trusted default_path config peer host port (save config peer key previous disk).disk
      meanwhile there f.0 pin fine
      (save-at_key config peer key previous disk a f done key
        ∙ at_key-put_key_same key peer.fingerprint (read_trust_store disk config.trust_store_path))
  where
    key : Bytes
    key = address_key host port
