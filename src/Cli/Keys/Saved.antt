-- ===== src/Cli/Keys/Saved.antt =====
-- What loadOrCreatePriv of cli/saka/keys.go leaves in the files, and reads back.
use text.Mathlib.TextLemmas.{append-nil, append_cancel_left}
use saka.Base.{
  ℕ, ◌≡◌, ◌≢◌, refl, sym, ◌∙◌, ap, subst, ◌↔◌, inl, inr, Bool, true, false, String, ◌<>◌, none,
  some, is_empty, str_eq, eq_iff, get, put, get-put, Bool-cases, Option-cases, arith, if◌then◌else◌,
}
use saka.Strings.{trim_space, trim_suffix}
use saka.Strings.Suffix.{ext, trim_suffix-ext}
use saka.Cli.Files.{Disk, read_file, write_file, write_anyway}
use saka.Cli.Keys.{
  Ring, public_of, pub_path, got, write_pub_beside, create_priv, load_or_create_priv,
}

pub pub_path-stem : (path : String) → pub_path path ≡ trim_suffix path (ext path) <> ".pub"
unfolding pub_path
pub_path-stem path = elim (Bool-cases (is_empty (ext path))) [
  | inr e ↦ rw (e, pub_path) refl
  | inl e ↦
      let none_there : ext path ≡ "" = (eq_iff (ext path) "").0 e in
      let whole : trim_suffix path (ext path) ≡ path =
        sym (append-nil (trim_suffix path (ext path)))
        ∙ ap (λ x. trim_suffix path (ext path) <> x) (sym none_there)
        ∙ trim_suffix-ext path in
      rw (e, pub_path) (ap (λ x. x <> ".pub") (sym whole))
]

-- The public key goes to the path of the private key exactly if that path ends in ".pub" already.
pub pub_path_self : (path : String) → (pub_path path ≡ path) ↔ (ext path ≡ ".pub")
pub_path_self path =
    let stem = trim_suffix path (ext path) in
    (
      λ h. sym (
          append_cancel_left stem ".pub" (ext path)
            (sym (pub_path-stem path) ∙ h ∙ sym (trim_suffix-ext path))),
      λ h. pub_path-stem path ∙ ap (λ x. stem <> x) (sym h) ∙ trim_suffix-ext path,
    )

pub get-write_anyway :
    (d : Disk) (path content other : String)
    → get (write_anyway d path content).files other ≡ (
        if str_eq path other
        then (if d.may_write path then some content else get d.files other)
        else get d.files other)
unfolding write_anyway write_file
get-write_anyway d path content other = elim (Bool-cases (d.may_write path)) [
  | inl e ↦ rw (e, write_anyway, write_file) (get-put d.files path other content)
  | inr e ↦ elim (Bool-cases (str_eq path other)) [
    | inl s ↦ rw (e, write_anyway, write_file, s) refl
    | inr s ↦ rw (e, write_anyway, write_file, s) refl
  ]
]

pub may-write_anyway :
    (d : Disk) (path content other : String)
    → ((write_anyway d path content).may_read other ≡ d.may_read other)
      × ((write_anyway d path content).may_write other ≡ d.may_write other)
unfolding write_anyway write_file
may-write_anyway d path content other = elim (Bool-cases (d.may_write path)) [
  | inl e ↦ rw (e, write_anyway, write_file) (refl, refl)
  | inr e ↦ rw (e, write_anyway, write_file) (refl, refl)
]

get-write_twice :
    (d : Disk) (path content other : String)
    → get (write_anyway (write_anyway d path content) path content).files other
      ≡ get (write_anyway d path content).files other
get-write_twice d path content other = ground (
  arith,
  get-write_anyway (write_anyway d path content) path content other,
  get-write_anyway d path content other,
  may-write_anyway d path content path,
)

-- What base64 with the alphabet of StdEncoding does to texts that stand for bytes: its texts have
-- no space and come back. Keys and what is decoded are bytes.
pub record IsCoding (ring : Ring) : Type 0 where
  pub is_bytes : String → Bool
  pub back : (b : String) → is_bytes b ≡ true → ring.decode (ring.encode b) ≡ some b
  pub bare : (b : String) → is_bytes b ≡ true → trim_space (ring.encode b) ≡ ring.encode b
  pub decoded : (s b : String) → ring.decode s ≡ some b → is_bytes b ≡ true
  pub generated : (k : ℕ) (priv : String) → ring.generate k ≡ some priv → is_bytes priv ≡ true
  pub halved :
      (priv pk : String) → is_bytes priv ≡ true → public_of priv ≡ some pk → is_bytes pk ≡ true

module _ (ring : Ring) where
  -- How write_pub_beside goes through.
  write_pub_beside-got :
      (path priv : String) (d : Disk) (key : String) (d' : Disk)
      → write_pub_beside ring path priv d ≡ got key d'
      → (pk : String) × (public_of priv ≡ some pk)
        × (priv ≡ key)
        × (write_anyway d (pub_path path) (ring.encode pk) ≡ d')
  unfolding write_pub_beside
  write_pub_beside-got path priv d key d' h = elim (Option-cases (public_of priv)) [
    | inl e ↦ absurd (ground arith)
    | inr (pk, e) ↦
        let same : got priv (write_anyway d (pub_path path) (ring.encode pk)) ≡ got key d' =
          sym (rw (e, write_pub_beside) refl) ∙ h in
        (pk, e, ground arith, ground arith)
  ]

  -- A key that loadOrCreatePriv returns stands in the files `d₁`, before the public key is
  -- written beside it.
  abbrev pub Held : String → Disk → String → Disk → Type 0
  Held path d key d' =
      (d₁ : Disk) × (content : String) × (pk : String) × (get d₁.files path ≡ some content)
      × (ring.decode (trim_space content) ≡ some key)
      × (public_of key ≡ some pk)
      × (d₁.may_read ≡ d.may_read)
      × (d₁.may_write ≡ d.may_write)
      × (write_anyway d₁ (pub_path path) (ring.encode pk) ≡ d')

  create_priv-Held :
      (path : String) (d : Disk) (k : ℕ) (key : String) (d' : Disk)
      → IsCoding ring
      → create_priv ring path d k ≡ got key d'
      → Held path d key d'
  unfolding create_priv write_file
  create_priv-Held path d k key d' coding h = elim (Option-cases (ring.generate k)) [
    | inl e ↦ absurd (ground arith)
    | inr (priv, e) ↦ elim (Bool-cases (d.may_write path)) [
      | inr e' ↦ absurd (ground arith)
      | inl e' ↦
          let bytes = coding.generated k priv e in
          let d₁ : Disk = record d { files = put d.files path (ring.encode priv) } in
          let goes : write_pub_beside ring path priv d₁ ≡ got key d' =
            sym (rw (e, create_priv, write_file, e') refl) ∙ h in
          let (pk, made, same, files) = write_pub_beside-got path priv d₁ key d' goes in
          (
            d₁,
            ring.encode priv,
            pk,
            ground (arith, get-put d.files path path (ring.encode priv), eq_iff path path),
            ap ring.decode (coding.bare priv bytes) ∙ coding.back priv bytes ∙ ap some same,
            subst (λ x. public_of x ≡ some pk) same made,
            refl,
            refl,
            files,
          )
    ]
  ]

  pub load_or_create_priv-Held :
      (path : String) (d : Disk) (k : ℕ) (key : String) (d' : Disk)
      → IsCoding ring
      → load_or_create_priv ring path d k ≡ got key d'
      → Held path d key d'
  unfolding load_or_create_priv read_file
  load_or_create_priv-Held path d k key d' coding h = elim (Option-cases (read_file d path)) [
    | inl e ↦ create_priv-Held path d k key d' coding (sym (rw (e, load_or_create_priv) refl) ∙ h)
    | inr (content, e) ↦ elim (Option-cases (ring.decode (trim_space content))) [
      | inl e' ↦ absurd (ground arith)
      | inr (priv, e') ↦
          let goes : write_pub_beside ring path priv d ≡ got key d' =
            sym (rw (e, load_or_create_priv, e') refl) ∙ h in
          let (pk, made, same, files) = write_pub_beside-got path priv d key d' goes in
          (
            d,
            content,
            pk,
            ground arith,
            e' ∙ ap some same,
            subst (λ x. public_of x ≡ some pk) same made,
            refl,
            refl,
            files,
          )
    ]
  ]

  -- Whatever the files were, once loadOrCreatePriv has returned a key for a path that can be read
  -- and that does not end in ".pub", it returns this key every time that it is called again, and
  -- leaves all files as they are.
  pub load_or_create_priv-again :
      (path : String) (d : Disk) (k k' : ℕ) (key : String) (d' : Disk)
      → IsCoding ring
      → ext path ≢ ".pub"
      → d.may_read path ≡ true
      → load_or_create_priv ring path d k ≡ got key d'
      → (d'' : Disk) × (load_or_create_priv ring path d' k' ≡ got key d'')
        × ((other : String) → get d''.files other ≡ get d'.files other)
  unfolding load_or_create_priv read_file write_pub_beside
  load_or_create_priv-again path d k k' key d' coding apart readable h =
      let (d₁, content, pk, held, decoded, made, reads, writes, files) =
        load_or_create_priv-Held path d k key d' coding h in
      let beside : str_eq (pub_path path) path ≡ false =
        ground (arith, eq_iff (pub_path path) path, pub_path_self path) in
      let there : get d'.files path ≡ some content =
        subst (λ (x : Disk). get x.files path ≡ some content) files
          (rw (get-write_anyway d₁ (pub_path path) (ring.encode pk) path, beside) held) in
      let open_there : d'.may_read path ≡ true =
        subst (λ (x : Disk). x.may_read path ≡ true) files
          ((may-write_anyway d₁ (pub_path path) (ring.encode pk) path).0
            ∙ ap (λ f. f path) reads
            ∙ readable) in
      (
        write_anyway d' (pub_path path) (ring.encode pk),
        rw (open_there, load_or_create_priv, read_file, there, decoded, write_pub_beside, made)
            refl,
        λ other.
            subst
              (λ (x : Disk).
                get (write_anyway x (pub_path path) (ring.encode pk)).files other
                ≡ get x.files other)
              files (get-write_twice d₁ (pub_path path) (ring.encode pk) other),
      )

  -- The first run for a path writes the key that it makes to the path and the public key beside
  -- it; but if the path ends in ".pub", the public key takes the place of the private one, which
  -- then stands in no file of the two. This is so where both paths can be written.
  pub load_or_create_priv-first :
      (path : String) (d : Disk) (k : ℕ) (priv pk : String)
      → read_file d path ≡ none
      → d.may_write path ≡ true
      → d.may_write (pub_path path) ≡ true
      → ring.generate k ≡ some priv
      → public_of priv ≡ some pk
      → (d' : Disk) × (load_or_create_priv ring path d k ≡ got priv d')
        × (get d'.files (pub_path path) ≡ some (ring.encode pk))
        × (get d'.files path ≡ some (ring.encode (if str_eq (ext path) ".pub" then pk else priv)))
  unfolding load_or_create_priv create_priv write_file write_pub_beside
  load_or_create_priv-first path d k priv pk absent may may' made has =
      let d₁ : Disk = record d { files = put d.files path (ring.encode priv) } in
      (
        write_anyway d₁ (pub_path path) (ring.encode pk),
        rw (absent, load_or_create_priv, made, create_priv, may, write_file, has, write_pub_beside)
            refl,
        ground (
          arith,
          get-write_anyway d₁ (pub_path path) (ring.encode pk) (pub_path path),
          eq_iff (pub_path path) (pub_path path),
        ),
        ground (
          arith,
          get-write_anyway d₁ (pub_path path) (ring.encode pk) path,
          get-put d.files path path (ring.encode priv),
          eq_iff path path,
          eq_iff (pub_path path) path,
          eq_iff (ext path) ".pub",
          pub_path_self path,
        ),
      )
