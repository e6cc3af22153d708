-- ===== src/Interceptor.antt =====
-- interceptor/p2p_interceptor.go: the check of a peer's request, `VerifyTimestampSig` and
-- `AuthInterceptor.Intercept`.
pub mod Auth
pub mod Handshake
pub mod Reader
use touchstone.Base.{
  ℕ, ℤ, pos, Str, Bytes, codes, str_eq, Bool, List, [], ◌∷◌, Option, none, some, Outcome, ok, err,
  panic, hang, bind, new_error, any, ltb_ℤ, ◌-64◌, if◌then◌else◌, not,
}
use touchstone.Util.Script.{int64_to_bytes}
use touchstone.Services.PartitionHash.{decode_hex}

-- What the check uses of `btcec` and `strconv`.
pub record Btcec : Type 1 where
  pub PublicKey : Type 0
  pub Signature : Type 0
  -- `btcec.ParsePubKey(bytes, btcec.S256())`
  pub parse_pub_key : Bytes → Outcome PublicKey
  -- `btcec.ParseSignature(bytes, btcec.S256())`
  pub parse_signature : Bytes → Outcome Signature
  -- `sig.Verify(bytes, pubkey)`
  pub verify : Signature → Bytes → PublicKey → Bool
  -- `strconv.ParseInt(text, 10, 64)`
  pub parse_int : Str → Outcome ℤ

-- `metadata.MD`: the values of the three keys that are read, and whether there is any metadata.
pub record Metadata : Type 0 where
  pub pubkey : Option (List Str)
  pub signature : Option (List Str)
  pub timestamp : Option (List Str)

-- `value, ok := md[key]` with an error if there is none, then `value[0]`, which panics on an
-- empty slice.
abbrev pub header : Option (List Str) → Str → Outcome Str
header none text = err (new_error text)
header (some []) text = panic
header (some (v ∷ vs)) text = ok v

-- `md, ok := metadata.FromIncomingContext(ctx)`
abbrev pub metadata_of : Option Metadata → Outcome Metadata
metadata_of none = err (new_error (codes "not header"))
metadata_of (some md) = ok md

module _ (btcec : Btcec) where
  open btcec use {parse_pub_key, parse_signature, verify, parse_int}

  abbrev check_signature : Bytes → Bytes → ℤ → Outcome (Unit {0})
  check_signature pubkey_byte sig_bytes timestamp = bind (parse_pub_key pubkey_byte) λ pubkey.
      bind (parse_signature sig_bytes) λ sig.
        if not (verify sig (int64_to_bytes timestamp) pubkey)
        then err (new_error (codes "verify fail"))
        else ok tt

  -- At the time `now`. Writing to a buffer does not fail.
  unfoldable pub verify_timestamp_sig : ℤ → Bytes → Bytes → ℤ → Outcome (Unit {0})
  verify_timestamp_sig now pubkey_byte sig_bytes timestamp =
      if ltb_ℤ (pos 10) (now -64 timestamp)
      then err (new_error (codes "sig expired"))
      else if ltb_ℤ now timestamp
      then err (new_error (codes "error timestamp"))
      else check_signature pubkey_byte sig_bytes timestamp

  -- `_, ok = this.allowPubkeys[pubkeyHex[0]]`, on the keys of the map.
  abbrev pub allow : List Str → Str → Outcome (Unit {0})
  allow allow_pubkeys pubkey_hex =
      if any (λ k. str_eq k pubkey_hex) allow_pubkeys
      then ok tt
      else err (new_error (codes "not support pubkey"))

  -- `Intercept` up to the call of the handler; the result is that of the handler if this is ok.
  unfoldable pub intercept : List Str → ℤ → Option Metadata → Outcome (Unit {0})
  unfolding verify_timestamp_sig
  intercept allow_pubkeys now context = bind (metadata_of context) λ md.
      bind (header md.pubkey (codes "no pubkey")) λ pubkey_hex.
        bind (allow allow_pubkeys pubkey_hex) λ _. bind (decode_hex pubkey_hex) λ pubkey_byte.
          bind (header md.signature (codes "not sig")) λ sig_hex.
            bind (decode_hex sig_hex) λ sig_bytes.
              bind (header md.timestamp (codes "no timestamp")) λ timestamp_str.
                bind (parse_int timestamp_str)
                  λ timestamp. verify_timestamp_sig now pubkey_byte sig_bytes timestamp
