-- ===== src/Cli/Serve/Keyed.antt =====
-- A server on the public key that the keys command has written: saka keys, then saka serve --keys.
use mathlib.Core.Option
use text.Mathlib.TextLemmas.{append-ne-nil_of_right_ne-nil}
use saka.Base.{
  ℕ, suc, ◌≡◌, ◌≢◌, refl, sym, ◌∙◌, ap, subst, ◌⊎◌, inl, inr, true, false, String, Option, some,
  List, [], ◌∷◌, length, ℤ, pos_part, is_empty, eq_iff, get, put, All, Option-cases, arith,
}
use saka.Strings.{trim_space, trim_suffix}
use saka.Strings.Suffix.{ext}
use saka.Types.Contract.{Searcher}
use saka.Cli.Flags.{FlagSet, parse, parsed, text_of, number_of}
use saka.Cli.Exit.{Fatal, Status, returned}
use saka.Cli.Files.{Disk, read_file, write_file}
use saka.Cli.Keys.{
  Ring, public_of, pub_path, Priv, got, dies, write_pub_beside, create_priv, load_or_create_priv,
  make_keys, KeysEnd, keys_flags, keys_for, keys_parsed, do_keys,
}
use saka.Cli.Keys.Saved.{
  IsCoding, pub_path-stem, load_or_create_priv-Held, get-write_anyway, may-write_anyway,
}
use saka.Cli.Keys.Accepted.{IsLawful, IsPair, IsFresh, tier_at, public_of-size, make_keys-tier}
use saka.Cli.Serve.{listens, load_public_key, listen, serve_parsed, do_serve}

pub_path-ne-nil : (path : String) → pub_path path ≢ ""
pub_path-ne-nil path e =
    append-ne-nil_of_right_ne-nil (trim_suffix path (ext path)) (ground (arith, eq_iff ".pub" ""))
      (sym (pub_path-stem path) ∙ e)

module _ (ring : Ring) where
  write_pub_beside-dies :
      (path priv : String) (d : Disk) (status : Status) (d' : Disk)
      → write_pub_beside ring path priv d ≡ dies status d'
      → status ≢ returned
  unfolding write_pub_beside
  write_pub_beside-dies path priv d status d' h s = elim (Option-cases (public_of priv)) [
    | inl e ↦ ground arith
    | inr (pk, e) ↦ ground arith
  ]

  load_or_create_priv-dies :
      (path : String) (d : Disk) (k : ℕ) (status : Status) (d' : Disk)
      → load_or_create_priv ring path d k ≡ dies status d'
      → status ≢ returned
  unfolding load_or_create_priv create_priv
  load_or_create_priv-dies path d k status d' h s = elim (Option-cases (read_file d path)) [
    | inr (content, e) ↦ elim (Option-cases (ring.decode (trim_space content))) [
      | inl e' ↦ ground arith
      | inr (priv, e') ↦
          write_pub_beside-dies path priv d status d'
            (sym (rw (e, load_or_create_priv, e') refl) ∙ h) s
    ]
    | inl e ↦ elim (Option-cases (ring.generate k)) [
      | inl e' ↦ ground arith
      | inr (priv, e') ↦ elim (Option-cases (write_file d path (ring.encode priv))) [
        | inl e'' ↦ ground arith
        | inr (d₁, e'') ↦
            write_pub_beside-dies path priv d₁ status d'
              (sym (rw (e, load_or_create_priv, e', create_priv, e'') refl) ∙ h) s
      ]
    ]
  ]

  -- The public key that loadOrCreatePriv writes is the one that a server reads.
  load_public_key-beside :
      (path : String) (d : Disk) (k : ℕ) (key pk : String) (d' : Disk)
      → IsCoding ring
      → d.may_read (pub_path path) ≡ true
      → d.may_write (pub_path path) ≡ true
      → load_or_create_priv ring path d k ≡ got key d'
      → public_of key ≡ some pk
      → load_public_key ring d' (pub_path path) ≡ inl pk
  unfolding load_public_key read_file
  load_public_key-beside path d k key pk d' coding may may' h made =
      let (d₁, content, pk', held, decoded, made', reads, writes, files) =
        load_or_create_priv-Held ring path d k key d' coding h in
      let bytes = coding.halved key pk (coding.decoded (trim_space content) key decoded) made in
      let same : pk' ≡ pk = Option.some-injective pk' pk (sym made' ∙ made) in
      let may_there : d₁.may_write (pub_path path) ≡ true =
        ap (λ f. f (pub_path path)) writes ∙ may' in
      let written : get d'.files (pub_path path) ≡ some (ring.encode pk) =
        subst (λ (x : Disk). get x.files (pub_path path) ≡ some (ring.encode pk)) files
          (ground (
            arith,
            get-write_anyway d₁ (pub_path path) (ring.encode pk') (pub_path path),
            eq_iff (pub_path path) (pub_path path),
            may_there,
            same,
          )) in
      let open_there : d'.may_read (pub_path path) ≡ true =
        subst (λ (x : Disk). x.may_read (pub_path path) ≡ true) files
          ((may-write_anyway d₁ (pub_path path) (ring.encode pk') (pub_path path)).0
            ∙ ap (λ f. f (pub_path path)) reads
            ∙ may) in
      rw
        (
          open_there,
          load_public_key,
          read_file,
          written,
          coding.bare pk bytes,
          coding.back pk bytes,
          public_of-size key pk made,
        )
        refl

  module _ (parse_int : String → Option ℤ) (new_engine : String → Searcher ⊎ Fatal) where
    do_serve-key :
        (path pk : String) (d : Disk) (e : Searcher)
        → new_engine "" ≡ inl e
        → path ≢ ""
        → load_public_key ring d path ≡ inl pk
        → do_serve ring parse_int new_engine ("--keys" ∷ path ∷ []) d
          ≡ listens (record { engine = e; addr = ":8080"; admin_key = ""; key = some pk })
    unfolding do_serve serve_parsed listen parse text_of get put
    do_serve-key path pk d e made some_path loaded =
        let there : is_empty path ≡ false = ground (arith, eq_iff path "") in
        rw (made, do_serve, serve_parsed) (rw (there, listen, loaded) refl)

    -- After saka keys has gone through, saka serve --keys with the path of the public key listens
    -- with it, and every key that was printed, in the number asked for, passes with the tier asked
    -- for, until the day of its expiry, or for good with --exp-days 0. This is so where the public
    -- key's path can be read and written and the signing key, that of the file or a new one, is
    -- one of a pair.
    pub do_keys-do_serve :
        (args rest : List String) (fs : FlagSet) (d : Disk) (k now : ℕ) (e : Searcher)
        → IsLawful ring
        → parse parse_int keys_flags args ≡ parsed fs rest
        → ((key pk : String) (d' : Disk)
            → load_or_create_priv ring (text_of fs "priv") d k ≡ got key d'
            → public_of key ≡ some pk
            → IsPair ring key pk)
        → IsFresh ring (number_of fs "exp-days") now
        → d.may_read (pub_path (text_of fs "priv")) ≡ true
        → d.may_write (pub_path (text_of fs "priv")) ≡ true
        → (do_keys ring parse_int args d k).run.status ≡ returned
        → new_engine "" ≡ inl e
        → let end = do_keys ring parse_int args d k in
          (pk : String) × (do_serve ring parse_int new_engine
              ("--keys" ∷ pub_path (text_of fs "priv") ∷ [])
              end.disk
            ≡ listens (record { engine = e; addr = ":8080"; admin_key = ""; key = some pk }))
          × (length end.run.lines ≡ pos_part (number_of fs "n"))
          × All (λ key. tier_at ring pk now key ≡ some (text_of fs "tier")) end.run.lines
    unfolding do_keys keys_parsed keys_for
    do_keys-do_serve args rest fs d k now e laws h pairs fresh may may' done made =
        rw (h, do_keys)
          (by_priv (load_or_create_priv ring (text_of fs "priv") d k) refl
            (rw (h, do_keys) at done))
      where
        ends : Priv → KeysEnd
        ends r = elim r [
          | dies status d' ↦ record { run = record { lines = []; status = status }; disk = d' }
          | got priv d' ↦ record {
            run =
                make_keys ring priv (text_of fs "tier") (number_of fs "exp-days")
                  (pos_part (number_of fs "n")) (suc k);
            disk = d';
          }
        ]

        by_priv :
            (r : Priv)
            → load_or_create_priv ring (text_of fs "priv") d k ≡ r
            → (ends r).run.status ≡ returned
            → (pk : String) × (do_serve ring parse_int new_engine
                  ("--keys" ∷ pub_path (text_of fs "priv") ∷ [])
                  (ends r).disk
                ≡ listens (record { engine = e; addr = ":8080"; admin_key = ""; key = some pk }))
              × (length (ends r).run.lines ≡ pos_part (number_of fs "n"))
              × All (λ key. tier_at ring pk now key ≡ some (text_of fs "tier")) (ends r).run.lines
        by_priv (got priv d') r done' =
            let (_, _, pk, _, _, has, _, _, _) =
              load_or_create_priv-Held ring (text_of fs "priv") d k priv d' laws.coding r in
            let (count, all) =
              make_keys-tier ring priv pk (text_of fs "tier") (number_of fs "exp-days")
                (pos_part (number_of fs "n")) (suc k) now laws (pairs priv pk d' r has) fresh
                done' in
            (
              pk,
              do_serve-key (pub_path (text_of fs "priv")) pk d' e made
                  (pub_path-ne-nil (text_of fs "priv"))
                  (load_public_key-beside (text_of fs "priv") d k priv pk d' laws.coding may may' r
                    has),
              count,
              all,
            )
        by_priv (dies status d') r done' =
            absurd (load_or_create_priv-dies (text_of fs "priv") d k status d' r done')
