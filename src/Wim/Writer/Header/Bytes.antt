-- ===== src/Wim/Writer/Header/Bytes.antt =====
-- The header as its fields one behind the other.
use go_wim.Base.{
  ℕ, ◌+◌, ◌≡◌, refl, subst, ap, ◌∙◌, List, [], ◌∷◌, ◌++◌, Option, none, some, arith, inl, inr,
  Bool-cases, if◌then◌else◌, length, replicate, overwrite, u32, to_le,
}
use go_wim.Wim.Parts.{Parts, put_parts, join, InRow, put_parts-append, put_parts-join}
use go_wim.Wim.ResHdr.{ResHdr, write_res_hdr}
use go_wim.Wim.ResHdr.RoundTrip.{hdr_bytes, write_res_hdr-bytes}
use go_wim.Wim.Header.{header_size, wim_version, wim_magic}
use go_wim.Wim.Encode.{BlobEntry}
use go_wim.Wim.Writer.{Options, ImageEntry}
use go_wim.Wim.Writer.Header.{guid, put_boot, header_flags, header_chunk, header}

-- The image that the header names: its metadata resource and its index.
unfoldable pub boot_of : List ImageEntry → ℕ → Option (ResHdr × ℕ)
boot_of [] i = none
boot_of (im ∷ images) i =
    if im.info.boot then some (im.res, u32 (i + 1)) else boot_of images (i + 1)

boot_parts : Option (ResHdr × ℕ) → Parts
boot_parts none = []
boot_parts (some (res, i)) = (96, hdr_bytes res) ∷ (120, to_le 4 i) ∷ []

put_boot-parts :
    (images : List ImageEntry) (i : ℕ) (b : List ℕ)
    → put_boot images i b ≡ put_parts b (boot_parts (boot_of images i))
unfolding put_boot boot_of put_parts boot_parts
put_boot-parts [] i b = refl
put_boot-parts (im ∷ images) i b = elim (Bool-cases im.info.boot) [
  | inl e ↦ rw (e, write_res_hdr-bytes b 96 im.res) refl
  | inr e ↦ rw e (put_boot-parts images (i + 1) b)
]

-- The bytes before the GUID, behind it, and those that name the boot image.
abbrev pub front_bytes : Options → List ℕ
front_bytes opts =
    wim_magic
    ++ (to_le 4 header_size
        ++ (to_le 4 wim_version ++ (to_le 4 (header_flags opts) ++ to_le 4 (header_chunk opts))))

abbrev pub back_bytes : ℕ → ResHdr → ResHdr → List ℕ
back_bytes count tbl xml =
    to_le 2 1 ++ (to_le 2 1 ++ (to_le 4 count ++ (hdr_bytes tbl ++ hdr_bytes xml)))

abbrev pub boot_bytes : Option (ResHdr × ℕ) → List ℕ
boot_bytes none = []
boot_bytes (some (res, i)) = hdr_bytes res ++ to_le 4 i

join-boot_parts : (o : Option (ResHdr × ℕ)) → join (boot_parts o) ≡ boot_bytes o
unfolding join boot_parts
join-boot_parts none = refl
join-boot_parts (some (res, i)) = refl

boot_parts-InRow : (o : Option (ResHdr × ℕ)) → InRow 96 (boot_parts o)
unfolding boot_parts
boot_parts-InRow none = tt
boot_parts-InRow (some (res, i)) = (refl, (refl, tt))

module _ (sha1 : List ℕ → List ℕ) (opts : Options) (blobs : List BlobEntry)
    (images : List ImageEntry) (tbl xml : ResHdr) where
  pub header-bytes :
      length (guid sha1 opts blobs images) ≡ 16
      → header sha1 opts blobs images tbl xml
        ≡ overwrite (replicate 208 0) 0 (
            front_bytes opts
            ++ (guid sha1 opts blobs images
                ++ (back_bytes (length images) tbl xml ++ boot_bytes (boot_of images 0))))
  unfolding header put_parts join
  header-bytes whole =
      let zeros : List ℕ = replicate 208 0 in
      let boot = boot_of images 0 in
      let id = guid sha1 opts blobs images in
      let behind : Parts =
        (40, to_le 2 1)
        ∷ (42, to_le 2 1)
        ∷ (44, to_le 4 (length images))
        ∷ (48, hdr_bytes tbl)
        ∷ (72, hdr_bytes xml)
        ∷ [] in
      let all : Parts =
        (8, to_le 4 header_size)
        ∷ (12, to_le 4 wim_version)
        ∷ (16, to_le 4 (header_flags opts))
        ∷ (20, to_le 4 (header_chunk opts))
        ∷ (24, id)
        ∷ behind in
      let fields = put_parts (overwrite zeros 0 wim_magic) (
        (8, to_le 4 header_size)
        ∷ (12, to_le 4 wim_version)
        ∷ (16, to_le 4 (header_flags opts))
        ∷ (20, to_le 4 (header_chunk opts))
        ∷ (24, id)
        ∷ (40, to_le 2 1)
        ∷ (42, to_le 2 1)
        ∷ (44, to_le 4 (length images))
        ∷ []) in
      let place : 40 ≡ 24 + length id = omega (arith, whole) in
      let row : InRow 8 (all ++ boot_parts boot) = (
        refl,
        (
          refl,
          (
            refl,
            (
              refl,
              (
                refl,
                subst (λ o. InRow o (behind ++ boot_parts boot)) place
                    (refl, (refl, (refl, (refl, (refl, boot_parts-InRow boot))))),
              ),
            ),
          ),
        ),
      ) in
      put_boot-parts images 0 (write_res_hdr (write_res_hdr fields 48 tbl) 72 xml)
      ∙ ap (λ t. put_parts (write_res_hdr t 72 xml) (boot_parts boot))
          (write_res_hdr-bytes fields 48 tbl)
      ∙ ap (λ t. put_parts t (boot_parts boot))
          (write_res_hdr-bytes (overwrite fields 48 (hdr_bytes tbl)) 72 xml)
      ∙ put_parts-append (overwrite zeros 0 wim_magic) all (boot_parts boot)
      ∙ put_parts-join zeros wim_magic 8 (all ++ boot_parts boot) refl row
      ∙ ap
          (λ t.
            overwrite zeros 0
              (front_bytes opts ++ (id ++ (back_bytes (length images) tbl xml ++ t))))
          (join-boot_parts boot)
