-- ===== src/Cli/Serve/Tests.antt =====
-- Tests of the keys and serve commands and instances of their theorems, with libraries that know
-- a few texts.
use Prim.Native.Char.{code}
use mathlib.Core.Option
use saka.Base.{
  ◌≡◌, ◌≢◌, refl, sym, ◌∙◌, ap, subst, inl, inr, Bool, true, false, not, ◌&&◌, String, Option, none,
  some, List, [], ◌∷◌, length, ℤ, pos, negsuc, ◌==◌, str_eq, eq_iff, get, put, All, Bool-cases,
  arith, if◌then◌else◌,
}
use saka.Strings.{trim_space}
use saka.Strings.Suffix.{ext}
use saka.Types.{err, no_results}
use saka.Types.Contract.{Searcher, left}
use saka.Server.Keys.{KeyPayload}
use saka.Server.Keys.Sound.{NoDot}
use saka.Cli.Flags.{FlagSet, text, number, parsed, parse}
use saka.Cli.Exit.{returned}
use saka.Cli.Files.{Disk, read_file}
use saka.Cli.Keys.{Ring, size, public_of, pub_path, got, load_or_create_priv, keys_flags, do_keys}
use saka.Cli.Keys.Saved.{IsCoding, load_or_create_priv-first, load_or_create_priv-again}
use saka.Cli.Keys.Accepted.{IsLawful, tier_at}
use saka.Cli.Serve.{listens, do_serve}
use saka.Cli.Serve.Keyed.{do_keys-do_serve}

-- A private key of 64 bytes, its public half, and that one's.
abbrev priv : String
priv = "aaaaaaaaaaaaaaaaaaaaaaaaaaaaaaaaaaaaaaaaaaaaaaaaaaaaaaaaaaaaaaaa"

abbrev half : String
half = "aaaaaaaaaaaaaaaaaaaaaaaaaaaaaaaa"

abbrev zero_half : String
zero_half = "\0\0\0\0\0\0\0\0\0\0\0\0\0\0\0\0\0\0\0\0\0\0\0\0\0\0\0\0\0\0\0\0"

abbrev texts : List String
texts = priv ∷ half ∷ zero_half ∷ "body" ∷ "sig" ∷ []

listed : String → List String → Bool
listed s [] = false
listed s (t ∷ ts) = let rest = listed s ts in if str_eq t s then true else rest

listed-All :
    (P : String → Type 0) (ts : List String) (s : String) → All P ts → listed s ts ≡ true → P s
unfolding listed
listed-All P [] s h e = absurd (ground arith)
listed-All P (t ∷ ts) s (h, hs) e = elim (Bool-cases (str_eq t s)) [
  | inl same ↦ subst P ((eq_iff t s).0 same) h
  | inr other ↦ listed-All P ts s hs (ground arith)
]

abbrev only : KeyPayload
only = record { id = "k_aa"; tier = "pro"; exp = 100; n = pos 1 }

abbrev is_only : KeyPayload → Bool
is_only p =
    str_eq p.id "k_aa"
    && str_eq p.tier "pro"
    && p.exp == 100
    && (elim p.n [ pos m ↦ m == 1 | negsuc m ↦ false ])

known : String → Option String
unfolding listed
known s = if listed s texts then some s else none

abbrev ring : Ring
ring = record {
  encode = λ b. b;
  decode = known;
  url_encode = λ b. b;
  url_decode = known;
  marshal = λ p. if is_only p then some "body" else none;
  unmarshal = λ s. some only;
  sign = λ k body. "sig";
  verify = λ k body sig. true;
  generate = λ k. some priv;
  expiry = λ k days. 100;
  random_hex = λ k. "aa";
}

known-listed : (s b : String) → known s ≡ some b → listed b texts ≡ true
unfolding known
known-listed s b h = elim (Bool-cases (listed s texts)) [
  | inr e ↦ absurd (ground arith)
  | inl e ↦ let same : s ≡ b = ground arith in ap (λ x. listed x texts) (sym same) ∙ e
]

listed-known : (b : String) → listed b texts ≡ true → known b ≡ some b
unfolding known
listed-known b h = rw h refl

abbrev Halves : String → Type 0
Halves p = (pk : String) → public_of p ≡ some pk → listed pk texts ≡ true

kept :
    {x : Option String} (b : String)
    → listed b texts ≡ true
    → (pk : String) → x ≡ some pk
    → x ≡ some b
    → listed pk texts ≡ true
kept b h pk e e' = subst (λ y. listed y texts ≡ true) (Option.some-injective b pk (sym e' ∙ e)) h

coding : IsCoding ring
unfolding listed public_of size trim_space
coding = record {
  is_bytes = λ b. listed b texts;
  back = listed-known;
  bare = λ b. listed-All (λ b. trim_space b ≡ b) texts b (refl, (refl, (refl, (refl, (refl, tt)))));
  decoded = known-listed;
  generated = λ k p h. subst (λ x. listed x texts ≡ true) (Option.some-injective priv p h) refl;
  halved = λ p pk h e.
      listed-All Halves texts p
        (
          λ pk e. kept half refl pk e refl,
          (
            λ pk e. kept zero_half refl pk e refl,
            (
              λ pk e. kept zero_half refl pk e refl,
              (
                λ pk e. absurd (Option.none-ne-some pk e),
                (λ pk e. absurd (Option.none-ne-some pk e), tt),
              ),
            ),
          ),
        )
        h pk e;
}

only_is : (p : KeyPayload) → is_only p ≡ true → only ≡ p
only_is p h = by_number p.n refl
  where
    by_number : (n : ℤ) → p.n ≡ n → only ≡ p
    by_number (negsuc m) e = absurd (ground arith)
    by_number (pos m) e =
        let i : "k_aa" ≡ p.id = ground (arith, eq_iff p.id "k_aa") in
        let t : "pro" ≡ p.tier = ground (arith, eq_iff p.tier "pro") in
        let x : 100 ≡ p.exp = ground (arith, e) in
        let n : pos 1 ≡ p.n = ground (arith, e) in
        λ j. record { id = i j; tier = t j; exp = x j; n = n j }

no_dot : String → Bool
no_dot String.[] = true
no_dot (String.◌∷◌ c s) = not (code c == 46) && no_dot s

no_dot-NoDot : (s : String) → no_dot s ≡ true → NoDot s
unfolding no_dot
no_dot-NoDot String.[] h = tt
no_dot-NoDot (String.◌∷◌ c s) h = (ground arith, no_dot-NoDot s (ground arith))

laws : IsLawful ring
unfolding listed coding no_dot
laws = record {
  coding = coding;
  url_back = listed-known;
  url_dotless = λ b h.
      no_dot-NoDot b
        (listed-All (λ b. no_dot b ≡ true) texts b (refl, (refl, (refl, (refl, (refl, tt))))) h);
  json = λ p body h. elim (Bool-cases (is_only p)) [
    | inr e ↦ absurd (Option.none-ne-some body (sym (rw e refl) ∙ h))
    | inl e ↦
        let same : "body" ≡ body = Option.some-injective "body" body (sym (rw e refl) ∙ h) in
        (ap some (only_is p e), subst (λ x. listed x texts ≡ true) same refl)
  ];
  signatures = λ k body. refl;
}

abbrev disk : Disk
disk = record { files = []; may_read = λ p. true; may_write = λ p. true }

abbrev saved : Disk
saved = record {
  files = ("saka.key", priv) ∷ ("saka.pub", half) ∷ [];
  may_read = λ p. true;
  may_write = λ p. true;
}

is_saved : load_or_create_priv ring "saka.key" disk 0 ≡ got priv saved
unfolding load_or_create_priv get put
is_saved = refl

load_or_create_priv-first_example :
    (d' : Disk) × (load_or_create_priv ring "saka.key" disk 0 ≡ got priv d')
    × (get d'.files (pub_path "saka.key") ≡ some half)
    × (get d'.files "saka.key" ≡ some (if str_eq (ext "saka.key") ".pub" then half else priv))
unfolding read_file get public_of
load_or_create_priv-first_example =
    load_or_create_priv-first ring "saka.key" disk 0 priv half refl refl refl refl refl

-- With a path that ends in ".pub" already, the private key is lost.
overwritten :
    load_or_create_priv ring "saka.pub" disk 0
    ≡ got priv
        (record { files = ("saka.pub", half) ∷ []; may_read = λ p. true; may_write = λ p. true })
unfolding load_or_create_priv get put
overwritten = refl

not_pub : ext "saka.key" ≢ ".pub"
unfolding ext
not_pub h = ground (arith, eq_iff ".key" ".pub", h)

load_or_create_priv-again_example :
    (d'' : Disk) × (load_or_create_priv ring "saka.key" saved 7 ≡ got priv d'')
    × ((other : String) → get d''.files other ≡ get saved.files other)
load_or_create_priv-again_example =
    load_or_create_priv-again ring "saka.key" disk 0 7 priv saved coding not_pub refl is_saved

abbrev parse_int : String → Option ℤ
parse_int s = if str_eq s "2" then some (pos 2) else none

abbrev keys_args : List String
keys_args = "-priv" ∷ "saka.key" ∷ "--tier=pro" ∷ "-n" ∷ "2" ∷ []

abbrev keys_read : FlagSet
keys_read =
    ("tier", text "pro")
    ∷ ("priv", text "saka.key")
    ∷ ("exp-days", number (pos 365))
    ∷ ("n", number (pos 2))
    ∷ []

is_read : parse parse_int keys_flags keys_args ≡ parsed keys_read []
unfolding parse get put
is_read = refl

abbrev engine : Searcher
engine = record {
  search = λ q. err no_results;
  fetch = λ url. err no_results;
  search_stream = λ q. record { items = []; ended = left };
  fetch_stream = λ url. record { items = []; ended = left };
}

two_keys :
    (do_keys ring parse_int keys_args disk 0).run.lines ≡ "sk-1.body.sig" ∷ "sk-1.body.sig" ∷ []
unfolding do_keys parse get put
two_keys = refl

returns : (do_keys ring parse_int keys_args disk 0).run.status ≡ returned
unfolding do_keys parse get put
returns = refl

do_keys-do_serve_example :
    let end = do_keys ring parse_int keys_args disk 0 in
    (pk : String) × (do_serve ring parse_int
        (λ path. inl engine)
        ("--keys" ∷ pub_path "saka.key" ∷ [])
        end.disk
      ≡ listens (record { engine = engine; addr = ":8080"; admin_key = ""; key = some pk }))
    × (length end.run.lines ≡ 2)
    × All (λ key. tier_at ring pk 50 key ≡ some "pro") end.run.lines
unfolding saka.Cli.Flags.text_of saka.Cli.Flags.number_of get
do_keys-do_serve_example =
    do_keys-do_serve ring parse_int (λ path. inl engine) keys_args [] keys_read disk 0 50 engine
      laws is_read (λ key pk d' loaded has body. refl) (λ k. inr (omega arith)) refl refl returns
      refl
