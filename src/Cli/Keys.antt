-- ===== src/Cli/Keys.antt =====
-- cli/saka/keys.go: the keys command, with the files of the signing key. Keys of ed25519 and other
-- bytes are texts of one character for each byte; ed25519, base64, JSON, random numbers and the
-- calendar are parameters.
pub mod Saved
pub mod Accepted
use saka.Base.{
  ℕ, zero, suc, ◌-◌, Bool, String, ◌<>◌, Option, none, some, List, [], ◌∷◌, ℤ, pos, pos_part,
  le_zero, ltb, ◌==◌, is_empty, take, drop, length, if◌then◌else◌,
}
use saka.Strings.{trim_space, trim_suffix}
use saka.Strings.Suffix.{ext}
use saka.Types.{runes, from_runes}
use saka.Server.Keys.{KeyPayload, Crypto, sign_key}
use saka.Cli.Flags.{
  FlagSet, text, number, Parsed, parsed, helped, refused, parse, text_of, number_of,
}
use saka.Cli.Exit.{
  Status, returned, shown_help, flag_error, fatal, panicked, bad_base64, not_generated, unwritable,
  unsigned,
}
use saka.Cli.Files.{Disk, read_file, write_file, write_anyway}

-- The libraries: StdEncoding, RawURLEncoding, ed25519 and encoding/json; for event `k`, the pair
-- that GenerateKey makes, time.Now().AddDate(0, 0, days), and four random bytes in hexadecimal.
pub record Ring : Type 0 where
  pub encode : String → String
  pub decode : String → Option String
  pub url_encode : String → String
  pub url_decode : String → Option String
  pub marshal : KeyPayload → Option String
  pub unmarshal : String → Option KeyPayload
  pub sign : String → String → String
  pub verify : String → String → String → Bool
  pub generate : ℕ → Option String
  pub expiry : ℕ → ℤ → ℕ
  pub random_hex : ℕ → String

unfoldable pub size : String → ℕ
unfolding runes
size bytes = length (runes bytes)

unfoldable pub zeros : ℕ → String
zeros zero = ""
zeros (suc n) = "\0" <> zeros n

-- PrivateKey.Public: a copy of the bytes from 32 on into 32 zeros; `none` is the panic of a slice
-- out of range.
unfoldable pub public_of : String → Option String
unfolding size zeros runes from_runes
public_of priv =
    let copied = from_runes (take 32 (drop 32 (runes priv))) in
    if ltb (size priv) 32 then none else some (copied <> zeros (32 - size copied))

-- The path in writePubBeside.
unfoldable pub pub_path : String → String
unfolding trim_suffix ext
pub_path path =
    if is_empty (ext path) then path <> ".pub" else trim_suffix path (ext path) <> ".pub"

-- The key with the files, or the end of the process.
pub data Priv : Type 0 where
  got : String → Disk → Priv
  dies : Status → Disk → Priv

-- A signed key: ed25519.Sign panics on a private key that has not 64 bytes.
pub data SignedKey : Type 0 where
  signed : String → SignedKey
  not_marshalled : SignedKey
  panics : SignedKey

pub record KeysRun : Type 0 where
  pub lines : List String
  pub status : Status

-- How doKeys ends: the lines on standard output, and the files.
pub record KeysEnd : Type 0 where
  pub run : KeysRun
  pub disk : Disk

-- The flags that doKeys declares.
abbrev pub keys_flags : FlagSet
keys_flags =
    ("tier", text "free")
    ∷ ("priv", text "saka_ed25519.key")
    ∷ ("exp-days", number (pos 365))
    ∷ ("n", number (pos 1))
    ∷ []

module _ (ring : Ring) where
  -- What server/keys.go takes from the libraries, for a private and a public key.
  abbrev pub crypto_of : String → String → Crypto
  crypto_of priv pk = record {
    marshal = ring.marshal;
    unmarshal = ring.unmarshal;
    encode = ring.url_encode;
    decode = ring.url_decode;
    sign = ring.sign priv;
    verify = ring.verify pk;
  }

  -- writePubBeside, behind which loadOrCreatePriv returns the key.
  unfoldable pub write_pub_beside : String → String → Disk → Priv
  unfolding public_of pub_path write_anyway
  write_pub_beside path priv d = elim (public_of priv) [
    | none ↦ dies panicked d
    | some pk ↦ got priv (write_anyway d (pub_path path) (ring.encode pk))
  ]

  -- The part of loadOrCreatePriv for a file that cannot be read, at event `k`.
  unfoldable pub create_priv : String → Disk → ℕ → Priv
  unfolding write_file write_pub_beside
  create_priv path d k = elim (ring.generate k) [
    | none ↦ dies (fatal not_generated) d
    | some priv ↦ elim (write_file d path (ring.encode priv)) [
      | none ↦ dies (fatal (unwritable path)) d
      | some d' ↦ write_pub_beside path priv d'
    ]
  ]

  -- loadOrCreatePriv
  unfoldable pub load_or_create_priv : String → Disk → ℕ → Priv
  unfolding read_file create_priv trim_space
  load_or_create_priv path d k = elim (read_file d path) [
    | none ↦ create_priv path d k
    | some content ↦ elim (ring.decode (trim_space content)) [
      | none ↦ dies (fatal bad_base64) d
      | some priv ↦ write_pub_beside path priv d
    ]
  ]

  -- The payload of a key made at event `k`.
  unfoldable pub payload : String → ℤ → ℕ → KeyPayload
  payload tier days k = record {
    id = "k_" <> ring.random_hex k;
    tier = tier;
    exp = if le_zero days then 0 else ring.expiry k days;
    n = pos 1;
  }

  -- SignKey with a private key of any length.
  unfoldable pub sign_with : String → KeyPayload → SignedKey
  unfolding size sign_key
  sign_with priv p = elim (ring.marshal p) [
    | none ↦ not_marshalled
    | some _ ↦
        if size priv == 64
        then elim (sign_key (crypto_of priv "") p) [ none ↦ not_marshalled | some key ↦ signed key ]
        else panics
  ]

  -- The loop of doKeys, from event `k`.
  unfoldable pub make_keys : String → String → ℤ → ℕ → ℕ → KeysRun
  unfolding sign_with payload
  make_keys priv tier days zero k = record { lines = []; status = returned }
  make_keys priv tier days (suc n) k = elim (sign_with priv (payload tier days k)) [
    | not_marshalled ↦ record { lines = []; status = fatal unsigned }
    | panics ↦ record { lines = []; status = panicked }
    | signed key ↦
        let rest = make_keys priv tier days n (suc k) in
        record { lines = key ∷ rest.lines; status = rest.status }
  ]

  -- doKeys behind the parse of its flags, from event `k`.
  unfoldable pub keys_for : FlagSet → Disk → ℕ → KeysEnd
  unfolding load_or_create_priv make_keys text_of number_of
  keys_for fs d k = elim (load_or_create_priv (text_of fs "priv") d k) [
    | dies status d' ↦ record { run = record { lines = []; status = status }; disk = d' }
    | got priv d' ↦ record {
      run =
          make_keys priv (text_of fs "tier") (number_of fs "exp-days") (pos_part (number_of fs "n"))
            (suc k);
      disk = d';
    }
  ]

  unfoldable pub keys_parsed : Parsed → Disk → ℕ → KeysEnd
  unfolding keys_for
  keys_parsed helped d k = record { run = record { lines = []; status = shown_help }; disk = d }
  keys_parsed (refused x) d k = record {
    run = record { lines = []; status = flag_error x };
    disk = d;
  }
  keys_parsed (parsed fs rest) d k = keys_for fs d k

  -- doKeys
  unfoldable pub do_keys : (String → Option ℤ) → List String → Disk → ℕ → KeysEnd
  unfolding keys_parsed
  do_keys parse_int args d k = keys_parsed (parse parse_int keys_flags args) d k
