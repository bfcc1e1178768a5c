-- ===== src/Network/Trust/Safety.antt =====
-- What a client that accepts a certificate may rely on.
use chatbox.Common.{
  is_empty-ne-nil, is_empty-eq-nil, ℕ, ◌≡◌, refl, ◌≢◌, ◌⊎◌, inl, inr, Bool, true, false, not, ◌||◌,
  Option, none, some, [], arith, Bool-cases, is_empty, Bytes, bytes_eq,
}
use chatbox.Common.{bytes_eq_iff, if-elim}
use chatbox.Network.Trust.{
  judge, review, is_changed, is_trusted, normalize_fingerprint, address_key, Disk, Peer,
  ClientConfig, Decision, accepted, rejected, to_save, Opened, open_store, trusted_before,
  pin_fails, decide, Verdict, refusal, finish, verify_peer,
}

-- The pin, if there is one, is the fingerprint.
Pinned : ClientConfig → Peer → Type 0
Pinned config peer =
    (config.expected_fingerprint ≡ [])
    ⊎ (normalize_fingerprint config.expected_fingerprint ≡ peer.fingerprint)

-- Nothing else was trusted before, and the certificate is known, pinned, or verified for the host.
Known : ClientConfig → Peer → Bytes → Type 0
Known config peer previous =
    (previous ≡ peer.fingerprint)
    ⊎ ((previous ≡ [])
        × ((config.expected_fingerprint ≢ [])
            ⊎ ((peer.is_verified ≡ true) × (peer.matches_host ≡ true))))

-- The user says yes, or nobody can be asked, nothing was trusted before and first use is to be.
Reviewed : ClientConfig → Peer → Bytes → Bytes → Type 0
Reviewed config peer key previous =
    ((confirm : Bytes → Bytes → Bytes → Bool) × (config.confirm_certificate ≡ some confirm)
      × (confirm key peer.fingerprint previous ≡ true))
    ⊎ ((previous ≡ []) × (config.confirm_certificate ≡ none) × (config.trust_on_first_use ≡ true))

pub Justified : ClientConfig → Peer → Bytes → Bytes → Type 0
unfolding Pinned Known Reviewed
Justified config peer key previous =
    Pinned config peer × (Known config peer previous ⊎ Reviewed config peer key previous)

pin_fails-Pinned :
    (config : ClientConfig) (peer : Peer) → pin_fails config peer ≡ false → Pinned config peer
unfolding pin_fails Pinned
pin_fails-Pinned config peer h = elim (Bool-cases (is_empty config.expected_fingerprint)) [
  | inl e ↦ inl (is_empty-eq-nil config.expected_fingerprint e)
  | inr e ↦ inr (
      (bytes_eq_iff (normalize_fingerprint config.expected_fingerprint) peer.fingerprint).0
        (ground (arith, e, h)))
]

is_trusted-Known :
    (config : ClientConfig) (peer : Peer) (previous : Bytes)
    → is_trusted config peer previous ≡ true
    → Known config peer previous
unfolding is_trusted is_changed Known
is_trusted-Known config peer previous h = elim (Bool-cases (bytes_eq previous peer.fingerprint)) [
  | inl e ↦ inl ((bytes_eq_iff previous peer.fingerprint).0 e)
  | inr e ↦ inr (
    is_empty-eq-nil previous (ground (arith, e, h)),
    elim (Bool-cases (is_empty config.expected_fingerprint)) [
      | inl f ↦ inr (ground (arith, e, f, h), ground (arith, e, f, h))
      | inr f ↦ inl (is_empty-ne-nil config.expected_fingerprint f)
    ],
  )
]

Allowed : ClientConfig → Peer → Bytes → Bytes → Decision → Type 0
Allowed config peer key previous (rejected _) = Unit
Allowed config peer key previous _ = Justified config peer key previous

is_changed-no :
    (peer : Peer) (previous : Bytes)
    → bytes_eq previous peer.fingerprint ≡ false
    → is_changed peer previous ≡ false
    → previous ≡ []
unfolding is_changed
is_changed-no peer previous e h = is_empty-eq-nil previous (ground (arith, e, h))

review-Allowed :
    (config : ClientConfig) (peer : Peer) (key previous : Bytes)
    (choice : Option (Bytes → Bytes → Bytes → Bool))
    → config.confirm_certificate ≡ choice
    → Pinned config peer
    → Allowed config peer key previous (review config peer key previous choice)
unfolding Allowed review Reviewed Justified Known
review-Allowed config peer key previous (some confirm) h pin =
    if-elim (Allowed config peer key previous) (not (confirm key peer.fingerprint previous))
      (λ _. tt) (λ e. (pin, inr (inl (confirm, h, ground (arith, e)))))
review-Allowed config peer key previous none h pin =
    if-elim (Allowed config peer key previous) (is_changed peer previous) (λ _. tt)
      (λ same.
        if-elim (Allowed config peer key previous)
          (not config.trust_on_first_use || is_empty config.trust_store_path) (λ _. tt)
          (λ e. (
            pin,
            elim (Bool-cases (bytes_eq previous peer.fingerprint)) [
              | inl known ↦ inl (inl ((bytes_eq_iff previous peer.fingerprint).0 known))
              | inr new ↦ inr (inr (is_changed-no peer previous new same, h, ground (arith, e)))
            ],
          )))

decide-Allowed :
    (config : ClientConfig) (peer : Peer) (key previous : Bytes)
    → Allowed config peer key previous (decide config peer key previous)
unfolding decide Allowed Justified
decide-Allowed config peer key previous =
    if-elim (Allowed config peer key previous) (pin_fails config peer) (λ _. tt)
      (λ pin.
        if-elim (Allowed config peer key previous) (is_trusted config peer previous)
          (λ ok. (pin_fails-Pinned config peer pin, inl (is_trusted-Known config peer previous ok)))
          (λ _.
            review-Allowed config peer key previous config.confirm_certificate refl
              (pin_fails-Pinned config peer pin)))

finish-Justified :
    (config : ClientConfig) (peer : Peer) (key previous : Bytes) (disk : Disk)
    (meanwhile : Disk → Disk) (decision : Decision)
    → Allowed config peer key previous decision
    → (finish config peer key disk meanwhile decision).is_accepted ≡ true
    → Justified config peer key previous
unfolding finish refusal Allowed
finish-Justified config peer key previous disk meanwhile (accepted notice) h a = h
finish-Justified config peer key previous disk meanwhile (rejected error) h a = cc a
finish-Justified config peer key previous disk meanwhile (to_save _) h a = h

judge-Justified :
    (config : ClientConfig) (peer : Peer) (key : Bytes) (meanwhile : Disk → Disk) (opened : Opened)
    (error : Option Bytes)
    → (judge config peer key meanwhile opened error).is_accepted ≡ true
    → Justified config peer key (trusted_before opened.entries key)
unfolding judge refusal
judge-Justified config peer key meanwhile opened (some why) h = cc h
judge-Justified config peer key meanwhile opened none h =
    finish-Justified config peer key (trusted_before opened.entries key) opened.disk meanwhile
      (decide config peer key (trusted_before opened.entries key))
      (decide-Allowed config peer key (trusted_before opened.entries key)) h

-- `verify_peer` accepts only a certificate that is there, with a fingerprint, and that is justified,
-- whatever happens to the files meanwhile. That is: a pinned fingerprint, if there is one, is the
-- certificate's; and the store, as it was opened, trusts this fingerprint for the address; or it
-- has none for the address, and the certificate is pinned, or OpenSSL verifies it and it is the
-- host's; or the user confirms it; or the store has none for the address, there is nobody to ask, and
-- the first use is to be trusted.
pub verify_peer-Justified :
    (default_path : Bytes) (config : ClientConfig) (peer : Peer) (host : Bytes) (port : ℕ)
    (disk : Disk) (meanwhile : Disk → Disk)
    → (verify_peer default_path config peer host port disk meanwhile).is_accepted ≡ true
    → (peer.has_certificate ≡ true)
      × (peer.fingerprint ≢ [])
      × Justified config peer
          (address_key host port)
          (trusted_before (open_store default_path config disk).entries (address_key host port))
unfolding verify_peer refusal
verify_peer-Justified default_path config peer host port disk meanwhile =
    if-elim Good (not peer.has_certificate) (λ _ h. cc h)
      (λ e.
        if-elim Good (is_empty peer.fingerprint) (λ _ h. cc h)
          (λ f h. (
            ground (arith, e),
            is_empty-ne-nil peer.fingerprint f,
            judge-Justified config peer (address_key host port) meanwhile
                (open_store default_path config disk) (open_store default_path config disk).error h,
          )))
  where
    Good : Verdict → Type 0
    Good verdict =
        verdict.is_accepted ≡ true
        → (peer.has_certificate ≡ true)
          × (peer.fingerprint ≢ [])
          × Justified config peer (address_key host port)
              (trusted_before (open_store default_path config disk).entries (address_key host port))
