-- ===== src/Wim/Encode/Filed.antt =====
-- What `readBlobTable` keeps of the entries of a blob table.
use go_wim.Base.{
  ℕ, ◌≡◌, refl, sym, subst, ap, ◌∙◌, Bool, true, false, not, ◌&&◌, ◌==◌, if◌then◌else◌, Bool-cases,
  inl, inr, Option, none, some, List, [], ◌∷◌, ◌++◌, append-nil, append_assoc,
}
use go_wim.Wim.Names.{name_eq}
use go_wim.Wim.Names.Order.{name_eq→eq}
use go_wim.Wim.Dentry.{no_hash}
use go_wim.Wim.ResHdr.{ResHdr, has_flag, flag_metadata}
use go_wim.Wim.Header.{Reader, hash_lookup, add_hash, file_entry}
use go_wim.Wim.Encode.{BlobEntry}

-- What the reader makes of the entries of a table, in order.
unfoldable pub file_all : Reader → List BlobEntry → Reader
file_all rd [] = rd
file_all rd (e ∷ entries) = file_all (file_entry rd e.res e.refs e.hash) entries

-- A resource that the table's entry names as the metadata of an image.
abbrev pub is_meta : BlobEntry → Bool
is_meta e = has_flag e.res.flags flag_metadata

-- The metadata resources with references, in order.
pub live_metas : List BlobEntry → List ResHdr
live_metas [] = []
live_metas (e ∷ entries) =
    let rest = live_metas entries in if is_meta e && not (e.refs == 0) then e.res ∷ rest else rest

-- The stream that a hash names: the first one with it, and none for the hash of nothing.
pub first_stream : List ℕ → List BlobEntry → Option ResHdr
first_stream hash [] = none
first_stream hash (e ∷ entries) =
    let rest = first_stream hash entries in
    if not (is_meta e) && name_eq e.hash hash && not (name_eq hash no_hash)
    then some e.res
    else rest

-- The first of two answers that is one.
abbrev pub or_else : Option ResHdr → Option ResHdr → Option ResHdr
or_else none b = b
or_else (some a) b = some a

-- What a table adds to a Reader: its live metadata resources behind those it has, its streams for the hashes
-- that it does not know, and nothing else.
pub record IsFiled (rd : Reader) (entries : List BlobEntry) (rd' : Reader) : Type 0 where
  pub metas : rd'.metas ≡ rd.metas ++ live_metas entries
  pub streams :
      (hash : List ℕ)
      → hash_lookup rd'.by_hash hash
        ≡ or_else (hash_lookup rd.by_hash hash) (first_stream hash entries)
  pub others : rd' ≡ record rd { metas = rd'.metas; by_hash = rd'.by_hash }

or_else_assoc : (a b c : Option ResHdr) → or_else (or_else a b) c ≡ or_else a (or_else b c)
or_else_assoc none b c = refl
or_else_assoc (some a) b c = refl

or_else-none : (a : Option ResHdr) → or_else a none ≡ a
or_else-none none = refl
or_else-none (some a) = refl

-- An entry of a stream whose hash is looked up first.
stream-IsFiled :
    (rd : Reader) (e : BlobEntry) (found : Option ResHdr)
    → is_meta e ≡ false
    → name_eq e.hash no_hash ≡ false
    → hash_lookup rd.by_hash e.hash ≡ found
    → IsFiled rd
        (e ∷ [])
        (elim found [ none ↦ record rd { by_hash = (e.hash, e.res) ∷ rd.by_hash } | some old ↦ rd ])
unfolding hash_lookup live_metas first_stream
stream-IsFiled rd e (some old) m named f = record {
  metas = rw m (sym (append-nil rd.metas));
  streams = λ h. elim (Bool-cases (name_eq e.hash h)) [
    | inl same ↦
        let here : hash_lookup rd.by_hash h ≡ some old =
          subst (λ x. hash_lookup rd.by_hash x ≡ some old) (name_eq→eq e.hash h same) f in
        rw here refl
    | inr other ↦ rw (m, other) (sym (or_else-none (hash_lookup rd.by_hash h)))
  ];
  others = refl;
}
stream-IsFiled rd e none m named f = record {
  metas = rw m (sym (append-nil rd.metas));
  streams = λ h. elim (Bool-cases (name_eq e.hash h)) [
    | inl same ↦
        let here : hash_lookup rd.by_hash h ≡ none =
          subst (λ x. hash_lookup rd.by_hash x ≡ none) (name_eq→eq e.hash h same) f in
        let known : name_eq h no_hash ≡ false =
          subst (λ x. name_eq x no_hash ≡ false) (name_eq→eq e.hash h same) named in
        rw (m, same, here, known) refl
    | inr other ↦ rw (m, other) (sym (or_else-none (hash_lookup rd.by_hash h)))
  ];
  others = refl;
}

-- An entry that leaves the Reader as it is.
kept-IsFiled :
    (rd : Reader) (e : BlobEntry)
    → live_metas (e ∷ []) ≡ []
    → ((h : List ℕ) → first_stream h (e ∷ []) ≡ none)
    → IsFiled rd (e ∷ []) rd
kept-IsFiled rd e no_meta no_stream = record {
  metas = rw no_meta (sym (append-nil rd.metas));
  streams = λ h. rw (no_stream h) (sym (or_else-none (hash_lookup rd.by_hash h)));
  others = refl;
}

nothing_named :
    (e : BlobEntry) (h : List ℕ)
    → is_meta e ≡ false
    → name_eq e.hash no_hash ≡ true
    → first_stream h (e ∷ []) ≡ none
unfolding first_stream
nothing_named e h m empty = elim (Bool-cases (name_eq e.hash h)) [
  | inl same ↦
      let nothing : name_eq h no_hash ≡ true =
        subst (λ x. name_eq x no_hash ≡ true) (name_eq→eq e.hash h same) empty in
      rw (m, same, nothing) refl
  | inr other ↦ rw (m, other) refl
]

entry-IsFiled :
    (rd : Reader) (e : BlobEntry) → IsFiled rd (e ∷ []) (file_entry rd e.res e.refs e.hash)
unfolding file_entry add_hash live_metas first_stream
entry-IsFiled rd e = elim (Bool-cases (is_meta e)) [
  | inl m ↦ elim (Bool-cases (e.refs == 0)) [
    | inl stale ↦ rw (m, stale) (kept-IsFiled rd e (rw (m, stale) refl) (λ h. rw m refl))
    | inr live ↦
        rw (m, live)
          (record {
            metas = rw (m, live) refl;
            streams = λ h. rw m (sym (or_else-none (hash_lookup rd.by_hash h)));
            others = refl;
          })
  ]
  | inr m ↦ elim (Bool-cases (name_eq e.hash no_hash)) [
    | inl empty ↦ rw (m, empty) (kept-IsFiled rd e (rw m refl) (λ h. nothing_named e h m empty))
    | inr named ↦ rw (m, named) (stream-IsFiled rd e (hash_lookup rd.by_hash e.hash) m named refl)
  ]
]

live_metas-cons :
    (e : BlobEntry) (entries : List BlobEntry)
    → live_metas (e ∷ entries) ≡ live_metas (e ∷ []) ++ live_metas entries
unfolding live_metas
live_metas-cons e entries = elim (Bool-cases (is_meta e && not (e.refs == 0))) [
  | inl y ↦ rw y refl
  | inr n ↦ rw n refl
]

first_stream-cons :
    (h : List ℕ) (e : BlobEntry) (entries : List BlobEntry)
    → first_stream h (e ∷ entries) ≡ or_else (first_stream h (e ∷ [])) (first_stream h entries)
unfolding first_stream
first_stream-cons h e entries =
    elim (Bool-cases (not (is_meta e) && name_eq e.hash h && not (name_eq h no_hash))) [
      | inl y ↦ rw y refl
      | inr n ↦ rw n refl
    ]

cons-IsFiled :
    (rd rd1 rd2 : Reader) (e : BlobEntry) (entries : List BlobEntry)
    → IsFiled rd (e ∷ []) rd1
    → IsFiled rd1 entries rd2
    → IsFiled rd (e ∷ entries) rd2
cons-IsFiled rd rd1 rd2 e entries f g = record {
  metas =
      g.metas
      ∙ ap (λ ms. ms ++ live_metas entries) f.metas
      ∙ append_assoc rd.metas (live_metas (e ∷ [])) (live_metas entries)
      ∙ ap (λ ms. rd.metas ++ ms) (sym (live_metas-cons e entries));
  streams = λ h.
      g.streams h
      ∙ ap (λ a. or_else a (first_stream h entries)) (f.streams h)
      ∙ or_else_assoc (hash_lookup rd.by_hash h) (first_stream h (e ∷ [])) (first_stream h entries)
      ∙ ap (or_else (hash_lookup rd.by_hash h)) (sym (first_stream-cons h e entries));
  others =
      g.others
      ∙ ap (λ (r : Reader). record r { metas = rd2.metas; by_hash = rd2.by_hash }) f.others;
}

pub file_all-IsFiled :
    (rd : Reader) (entries : List BlobEntry) → IsFiled rd entries (file_all rd entries)
unfolding file_all live_metas first_stream
file_all-IsFiled rd [] = record {
  metas = sym (append-nil rd.metas);
  streams = λ h. sym (or_else-none (hash_lookup rd.by_hash h));
  others = refl;
}
file_all-IsFiled rd (e ∷ entries) =
    let rd1 = file_entry rd e.res e.refs e.hash in
    cons-IsFiled rd rd1 (file_all rd1 entries) e entries (entry-IsFiled rd e)
      (file_all-IsFiled rd1 entries)
