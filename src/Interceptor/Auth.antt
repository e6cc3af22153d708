-- ===== src/Interceptor/Auth.antt =====
-- Which requests reach the handler.
use touchstone.Base.{
  ◌≡◌, ℤ, pos, Str, Bytes, codes, str_eq, true, false, List, Option, none, some, ok, bind-eq-ok,
  any, Bool-cases, inl, inr, ltb_ℤ, ◌-64◌,
}
use touchstone.Util.Script.{int64_to_bytes}
use touchstone.Services.PartitionHash.{decode_hex}
use touchstone.Interceptor.{
  Btcec, Metadata, header, metadata_of, check_signature, verify_timestamp_sig, allow, intercept,
}

-- A key and a signature of the eight bytes of a timestamp that is not in the future and, in 64
-- bits, at most ten seconds old.
pub record IsSigned (btcec : Btcec) (now : ℤ) (pubkey_byte sig_bytes : Bytes) (timestamp : ℤ)
    : Type 0 where
  pub key : btcec.PublicKey
  pub sig : btcec.Signature
  pub key_parsed : btcec.parse_pub_key pubkey_byte ≡ ok key
  pub sig_parsed : btcec.parse_signature sig_bytes ≡ ok sig
  pub verified : btcec.verify sig (int64_to_bytes timestamp) key ≡ true
  pub not_expired : ltb_ℤ (pos 10) (now -64 timestamp) ≡ false
  pub not_future : ltb_ℤ now timestamp ≡ false

-- What a request has that is let through.
pub record IsAuthentic (btcec : Btcec) (allow_pubkeys : List Str) (now : ℤ)
    (context : Option Metadata) : Type 0 where
  pub md : Metadata
  pub pubkey_hex : Str
  pub sig_hex : Str
  pub timestamp_str : Str
  pub pubkey_byte : Bytes
  pub sig_bytes : Bytes
  pub timestamp : ℤ
  pub has_metadata : context ≡ some md
  pub has_pubkey : header md.pubkey (codes "no pubkey") ≡ ok pubkey_hex
  pub allowed : any (λ k. str_eq k pubkey_hex) allow_pubkeys ≡ true
  pub pubkey_decoded : decode_hex pubkey_hex ≡ ok pubkey_byte
  pub has_signature : header md.signature (codes "not sig") ≡ ok sig_hex
  pub sig_decoded : decode_hex sig_hex ≡ ok sig_bytes
  pub has_timestamp : header md.timestamp (codes "no timestamp") ≡ ok timestamp_str
  pub timestamp_parsed : btcec.parse_int timestamp_str ≡ ok timestamp
  pub signed : IsSigned btcec now pubkey_byte sig_bytes timestamp

module _ (btcec : Btcec) where
  check_signature-IsSigned :
      (now : ℤ) (pubkey_byte sig_bytes : Bytes) (timestamp : ℤ)
      → ltb_ℤ (pos 10) (now -64 timestamp) ≡ false
      → ltb_ℤ now timestamp ≡ false
      → check_signature btcec pubkey_byte sig_bytes timestamp ≡ ok tt
      → IsSigned btcec now pubkey_byte sig_bytes timestamp
  check_signature-IsSigned now pubkey_byte sig_bytes timestamp fresh past h =
      let (key, h1, h2) = bind-eq-ok (btcec.parse_pub_key pubkey_byte) _ h in
      let (sig, h3, h4) = bind-eq-ok (btcec.parse_signature sig_bytes) _ h2 in
      elim (Bool-cases (btcec.verify sig (int64_to_bytes timestamp) key)) [
        | inl good ↦ record {
          key = key;
          sig = sig;
          key_parsed = h1;
          sig_parsed = h3;
          verified = good;
          not_expired = fresh;
          not_future = past;
        }
        | inr bad ↦ let wrong = rw bad at h4 in absurd (cc)
      ]

  verify_timestamp_sig-IsSigned :
      (now : ℤ) (pubkey_byte sig_bytes : Bytes) (timestamp : ℤ)
      → verify_timestamp_sig btcec now pubkey_byte sig_bytes timestamp ≡ ok tt
      → IsSigned btcec now pubkey_byte sig_bytes timestamp
  unfolding verify_timestamp_sig
  verify_timestamp_sig-IsSigned now pubkey_byte sig_bytes timestamp h =
      elim (Bool-cases (ltb_ℤ (pos 10) (now -64 timestamp))) [
        | inl old ↦ let wrong = rw old at h in absurd (cc)
        | inr fresh ↦ elim (Bool-cases (ltb_ℤ now timestamp)) [
          | inl future ↦ let wrong = rw (fresh, future) at h in absurd (cc)
          | inr past ↦
              check_signature-IsSigned now pubkey_byte sig_bytes timestamp fresh past
                (rw (fresh, past) at h)
        ]
      ]

  metadata_of-eq :
      (context : Option Metadata) (md : Metadata) → metadata_of context ≡ ok md → context ≡ some md
  metadata_of-eq none md h = absurd (cc)
  metadata_of-eq (some md') md h = cc

  allow-eq :
      (allow_pubkeys : List Str) (pubkey_hex : Str)
      → allow btcec allow_pubkeys pubkey_hex ≡ ok tt
      → any (λ k. str_eq k pubkey_hex) allow_pubkeys ≡ true
  allow-eq allow_pubkeys pubkey_hex h =
      elim (Bool-cases (any (λ k. str_eq k pubkey_hex) allow_pubkeys)) [
        | inl found ↦ found
        | inr missing ↦ let wrong = rw missing at h in absurd (cc)
      ]

  -- A request reaches the handler only if its metadata names a public key that is configured, and
  -- has a signature by that key of its timestamp, which is not in the future and at most ten
  -- seconds old in 64 bits.
  pub intercept-IsAuthentic :
      (allow_pubkeys : List Str) (now : ℤ) (context : Option Metadata)
      → intercept btcec allow_pubkeys now context ≡ ok tt
      → IsAuthentic btcec allow_pubkeys now context
  unfolding intercept
  intercept-IsAuthentic allow_pubkeys now context h =
      let (md, a, h1) = bind-eq-ok (metadata_of context) _ h in
      let (pubkey_hex, b, h2) = bind-eq-ok (header md.pubkey (codes "no pubkey")) _ h1 in
      let (_, c, h3) = bind-eq-ok (allow btcec allow_pubkeys pubkey_hex) _ h2 in
      let (pubkey_byte, d, h4) = bind-eq-ok (decode_hex pubkey_hex) _ h3 in
      let (sig_hex, e, h5) = bind-eq-ok (header md.signature (codes "not sig")) _ h4 in
      let (sig_bytes, f, h6) = bind-eq-ok (decode_hex sig_hex) _ h5 in
      let (timestamp_str, g, h7) = bind-eq-ok (header md.timestamp (codes "no timestamp")) _ h6 in
      let (timestamp, i, h8) = bind-eq-ok (btcec.parse_int timestamp_str) _ h7 in
      record {
        md = md;
        pubkey_hex = pubkey_hex;
        sig_hex = sig_hex;
        timestamp_str = timestamp_str;
        pubkey_byte = pubkey_byte;
        sig_bytes = sig_bytes;
        timestamp = timestamp;
        has_metadata = metadata_of-eq context md a;
        has_pubkey = b;
        allowed = allow-eq allow_pubkeys pubkey_hex c;
        pubkey_decoded = d;
        has_signature = e;
        sig_decoded = f;
        has_timestamp = g;
        timestamp_parsed = i;
        signed = verify_timestamp_sig-IsSigned now pubkey_byte sig_bytes timestamp h8;
      }
