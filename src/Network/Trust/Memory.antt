-- ===== src/Network/Trust/Memory.antt =====
-- What was written to a trust store is read again, and a certificate that was saved is trusted.
use chatbox.Common.{
  ◌≡◌, refl, sym, ap, ◌∙◌, subst, inl, inr, true, Option, none, some, [], ◌∷◌, ◌++◌, Bool-cases,
  All, Bytes, bytes_eq,
}
use chatbox.Common.{
  StringMap, at_key, put_key, at_key-put_key_same, at_key-put_key_other, Ordered, at_key-Below,
  bytes_eq_iff, bytes_eq_refl, if-elim,
}
use mathlib.Core.List.{append_assoc}
use chatbox.Helpers.{split, split_from}
use chatbox.Helpers.Laws.{cut_at-word, has_no-append, has_no, split_from-word}
use chatbox.Network.Trust.{
  approval, is_overtaken, refusal, read_line, read_lines, store_text, Disk, Peer, ClientConfig,
  read_trust_store, write_trust_store, save, saved, Verdict,
}
use chatbox.Network.Trust.Store.{
  IsFingerprint, IsAddress, IsRecord, IsStore, put_key-IsStore, read_trust_store-IsStore,
}

record_line : Bytes × Bytes → Bytes
record_line (address, fingerprint) = address ++ (b'|' ∷ fingerprint)

-- One record is read as it was written.
read_line-record :
    (address fingerprint : Bytes) (entries : StringMap Bytes)
    → IsRecord (address, fingerprint)
    → read_line entries (record_line (address, fingerprint)) ≡ put_key address fingerprint entries
unfolding read_line record_line
read_line-record address fingerprint entries
      ((some_address, bar, _), (some_fingerprint, normal, _)) =
    rw (cut_at-word b'|' address fingerprint bar, read_line)
      (rw normal (rw some_address (rw some_fingerprint refl)))

split_from-record :
    (address fingerprint : Bytes) (rest : Bytes)
    → IsRecord (address, fingerprint)
    → split_from b'\n' [] (address ++ (b'|' ∷ (fingerprint ++ (b'\n' ∷ rest))))
      ≡ record_line (address, fingerprint) ∷ split_from b'\n' [] rest
unfolding record_line has_no
split_from-record address fingerprint rest ((_, _, a), (_, _, f)) =
    ap (split_from b'\n' []) (sym (append_assoc address (b'|' ∷ fingerprint) (b'\n' ∷ rest)))
    ∙ split_from-word b'\n' [] (address ++ (b'|' ∷ fingerprint)) rest
        (has_no-append b'\n' address (b'|' ∷ fingerprint) a f)

-- The map that the records make, one after the other.
put_all : StringMap Bytes → StringMap Bytes → StringMap Bytes
put_all entries [] = entries
put_all entries ((address, fingerprint) ∷ more) = put_all (put_key address fingerprint entries) more

read_lines-store_text :
    (entries more : StringMap Bytes)
    → All IsRecord more
    → read_lines entries (split_from b'\n' [] (store_text more)) ≡ put_all entries more
unfolding read_lines store_text put_all split_from
read_lines-store_text entries [] h = refl
read_lines-store_text entries ((address, fingerprint) ∷ more) (h, hs) =
    rw (split_from-record address fingerprint (store_text more) h) (
      rw (read_line-record address fingerprint entries h, read_lines)
        (read_lines-store_text (put_key address fingerprint entries) more hs))

or_else : Option Bytes → Option Bytes → Option Bytes
or_else none other = other
or_else (some value) other = some value

or_else-none : (found : Option Bytes) → or_else found none ≡ found
unfolding or_else
or_else-none none = refl
or_else-none (some value) = refl

at_key-put_all :
    (key : Bytes) (entries more : StringMap Bytes)
    → Ordered more
    → at_key key (put_all entries more) ≡ or_else (at_key key more) (at_key key entries)
unfolding put_all or_else at_key
at_key-put_all key entries [] h = refl
at_key-put_all key entries ((address, fingerprint) ∷ more) (below, h) =
    at_key-put_all key (put_key address fingerprint entries) more h
    ∙ elim (Bool-cases (bytes_eq key address)) [
      | inl e ↦
          let missing : at_key key more ≡ none =
            subst (λ k. at_key k more ≡ none) (sym ((bytes_eq_iff key address).0 e))
              (at_key-Below address more below) in
          let put : at_key key (put_key address fingerprint entries) ≡ some fingerprint =
            subst (λ k. at_key k (put_key address fingerprint entries) ≡ some fingerprint)
              (sym ((bytes_eq_iff key address).0 e))
              (at_key-put_key_same address fingerprint entries) in
          rw missing (rw put (rw e refl))
      | inr e ↦
          rw e (
            ap (or_else (at_key key more)) (at_key-put_key_other key address fingerprint entries e))
    ]

read_lines-split :
    (key : Bytes) (entries : StringMap Bytes)
    → IsStore entries
    → at_key key (read_lines [] (split (store_text entries) b'\n')) ≡ at_key key entries
unfolding split at_key
read_lines-split key entries (ordered, each) =
    ap (at_key key) (read_lines-store_text [] entries each)
    ∙ at_key-put_all key [] entries ordered
    ∙ or_else-none (at_key key entries)

-- A store in order, of records that are well formed, that is written without an error is read as it
-- was, at each key.
pub read_trust_store-write_trust_store :
    (disk : Disk) (path key : Bytes) (entries : StringMap Bytes)
    → IsStore entries
    → disk.write_error path ≡ none
    → at_key key (read_trust_store (write_trust_store disk path entries).0 path)
      ≡ at_key key entries
unfolding read_trust_store write_trust_store
read_trust_store-write_trust_store disk path key entries h e =
    rw (e, read_trust_store, write_trust_store)
      (rw (bytes_eq_refl path) (read_lines-split key entries h))

saved_disk :
    (peer : Peer) (r : Disk × Option Bytes)
    → (saved peer r).is_accepted ≡ true
    → (saved peer r).disk ≡ r.0
unfolding saved refusal approval
saved_disk peer (after, some why) h = cc h
saved_disk peer (after, none) h = refl

-- The write is reported if it failed.
saved-write_trust_store :
    (disk : Disk) (path : Bytes) (entries : StringMap Bytes) (peer : Peer) (error : Option Bytes)
    → disk.write_error path ≡ error
    → (saved peer (write_trust_store disk path entries)).is_accepted ≡ true
    → disk.write_error path ≡ none
unfolding saved write_trust_store refusal
saved-write_trust_store disk path entries peer none e h = e
saved-write_trust_store disk path entries peer (some why) e h =
    cc (rw (e, saved, write_trust_store) at h)

-- Where `save` accepts, the store is read as the one before, with the fingerprint for the address.
pub save-at_key :
    (config : ClientConfig) (peer : Peer) (address previous : Bytes) (disk : Disk)
    → IsAddress address
    → IsFingerprint peer.fingerprint
    → (save config peer address previous disk).is_accepted ≡ true
    → (key : Bytes)
    → at_key key
        (read_trust_store (save config peer address previous disk).disk config.trust_store_path)
      ≡ at_key key
          (put_key address peer.fingerprint (read_trust_store disk config.trust_store_path))
unfolding save refusal
save-at_key config peer address previous disk a f =
    if-elim Good
      (is_overtaken previous peer.fingerprint (at_key address (read_trust_store disk path)))
      (λ _ h. cc h)
      (λ _ h key.
        ap (λ d. at_key key (read_trust_store d path))
          (saved_disk peer (write_trust_store disk path entries) h)
        ∙ read_trust_store-write_trust_store disk path key entries
            (put_key-IsStore address peer.fingerprint (read_trust_store disk path) a f
              (read_trust_store-IsStore disk path))
            (saved-write_trust_store disk path entries peer (disk.write_error path) refl h))
  where
    path : Bytes
    path = config.trust_store_path

    entries : StringMap Bytes
    entries = put_key address peer.fingerprint (read_trust_store disk path)

    Good : Verdict → Type 0
    Good verdict =
        verdict.is_accepted ≡ true
        → (key : Bytes) → at_key key (read_trust_store verdict.disk path) ≡ at_key key entries
