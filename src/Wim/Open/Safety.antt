-- ===== src/Wim/Open/Safety.antt =====
-- What `Open` leaves in a Reader, and the choice of an image of it.
use go_wim.Base.{
  ℕ, zero, suc, ◌+◌, ◌-◌, ◌≤◌, ◌<◌, ◌≡◌, refl, sym, subst, ok-injective, Bool-cases, inl, inr, Bool,
  true, false, not, ◌||◌, ◌&&◌, List, [], ◌∷◌, arith, ltb, ◌==◌, if◌then◌else◌, All, length,
  length-replicate, length-set, ok, corrupt, at, put, at-eq, put-eq, Finishes, value, error,
  Finishes-bind, Finishes-guard, Finishes-if, Finishes-ok, >>=-eq-ok,
}
use go_wim.Wim.Info.{ℤ, pos, negsuc, ImageInfo}
use go_wim.Wim.ResHdr.{ResHdr}
use go_wim.Wim.Resource.{ReaderAt, read_resource}
use go_wim.Wim.Header.{Reader, Image, open_tables, image, boot}
use go_wim.Wim.Header.Safety.{IsFull, Inside, IsIndexed, open_tables-IsIndexed}
use go_wim.Wim.Open.{
  XmlImage, XmlParser, no_info, image_info, image_number, name_images, mark_boot, index_images,
  decode_xml_text, read_xml, open_wim,
}

-- What Open leaves: the checks of its tables hold, and there is an info for each image.
pub record IsOpened (size : ℕ) (rd : Reader) : Type 0 where
  pub indexed : IsIndexed size rd
  pub informed : length rd.infos ≡ rd.image_count

image_number-Finishes :
    (z : ℤ) (count : ℕ) → Finishes (λ n. (1 ≤ n) × (n ≤ count)) (image_number z count)
unfolding image_number
image_number-Finishes (negsuc n) count = error
image_number-Finishes (pos n) count =
    Finishes-if (ltb n 1 || ltb count n) (λ _. error) (λ e. value (ground arith, ground arith))

at-Finishes :
    {A : Type 0} (xs : List A) (i : ℕ) (d : A)
    → i < length xs
    → Finishes (λ x. at xs i ≡ ok x) (at xs i)
at-Finishes xs i d lt =
    let e = at-eq xs i d lt in subst (Finishes (λ x. at xs i ≡ ok x)) (sym e) (value e)

put-Finishes :
    {A : Type 0} (xs : List A) (i : ℕ) (v : A)
    → i < length xs
    → Finishes (λ ys. length ys ≡ length xs) (put xs i v)
put-Finishes xs i v lt = rw (put-eq xs i v lt) (value (length-set xs i v))

name_images-Finishes :
    (ims : List XmlImage) (count : ℕ) (seen : List Bool) (infos : List ImageInfo)
    → length seen ≡ count + 1
    → length infos ≡ count
    → Finishes (λ infos'. length infos' ≡ count) (name_images ims count seen infos)
unfolding name_images
name_images-Finishes [] count seen infos s i = value i
name_images-Finishes (im ∷ ims) count seen infos s i =
    Finishes-bind (image_number-Finishes im.index count) λ index (low, high).
      Finishes-bind (at-Finishes seen index false (omega arith)) λ named _.
        Finishes-guard (not named) corrupt λ _.
          Finishes-bind (put-Finishes seen index true (omega arith)) λ seen' s'.
            Finishes-bind (put-Finishes infos (index - 1) (image_info im) (omega arith))
              λ infos' i'. name_images-Finishes ims count seen' infos' (omega arith) (omega arith)

mark_boot-Finishes :
    (index : ℕ) (infos : List ImageInfo)
    → index ≤ length infos
    → Finishes (λ infos'. length infos' ≡ length infos) (mark_boot index infos)
unfolding mark_boot
mark_boot-Finishes index infos le =
    Finishes-if (index == 0) (λ _. value refl)
      λ e.
        let lt : index - 1 < length infos = ground arith in
        Finishes-bind (at-Finishes infos (index - 1) no_info lt)
          λ info _. put-Finishes infos (index - 1) (record info { boot = true }) lt

-- On a Reader that passed the checks of its tables, and for any images that the parser takes from the
-- XML, the rest of readXML never indexes outside of what it made: it ends with an error, or with
-- a Reader that has an info for each image.
pub index_images-IsOpened :
    (size : ℕ) (rd : Reader) (ims : List XmlImage)
    → IsIndexed size rd
    → Finishes (IsOpened size) (index_images rd ims)
unfolding index_images
index_images-IsOpened size rd ims k =
    let seen = length-replicate {A = Bool} (rd.image_count + 1) false in
    let infos = length-replicate {A = ImageInfo} rd.image_count no_info in
    Finishes-bind (name_images-Finishes ims rd.image_count _ _ seen infos) λ infos i.
      Finishes-bind (mark_boot-Finishes rd.boot_index infos (omega (arith, i, k.booted)))
        λ infos' i'. value (record {
          indexed = record {
            loaded = record {
              sized = k.loaded.sized;
              chunked = k.loaded.chunked;
              metas_inside = k.loaded.metas_inside;
              streams_inside = k.loaded.streams_inside;
            };
            counted = k.counted;
            booted = k.booted;
          };
          informed = omega (arith, i, i');
        })

no_meta : ResHdr
no_meta = record { size = 0; flags = 0; offset = 0; uncompressed = 0 }

-- A Reader that Open returns.
open_wim-IsOpened :
    (parse : XmlParser) (r : ReaderAt) (size : ℕ) (rd : Reader)
    → IsFull r
    → open_wim parse r size ≡ ok rd
    → IsOpened size rd
unfolding open_wim read_xml
open_wim-IsOpened parse r size rd full opened =
    let (rd0, tables, xml) = >>=-eq-ok (open_tables r size) _ opened in
    let (raw, e1, rest1) = >>=-eq-ok (read_resource r rd0.size rd0.chunk_size rd0.xml_res) _ xml in
    let (doc, e2, rest2) = >>=-eq-ok (decode_xml_text raw) _ rest1 in
    let (ims, e3, rest3) = >>=-eq-ok (parse doc) _ rest2 in
    Finishes-ok rest3
      (index_images-IsOpened size rd0 ims (Finishes-ok tables (open_tables-IsIndexed r size full)))

-- An image of a Reader: the one at the index, with the info and the metadata that stand there.
abbrev pub IsImageOf : ℕ → Reader → ℕ → Image → Type 0
IsImageOf size rd index (i, info, meta) =
    (i ≡ index)
    × (1 ≤ i)
    × (i ≤ length rd.metas)
    × (at rd.infos (i - 1) ≡ ok info)
    × (at rd.metas (i - 1) ≡ ok meta)
    × Inside size meta

-- The image that Boot is to choose.
abbrev pub booted_index : Reader → ℕ
booted_index rd = if rd.boot_index == 0 then 1 else rd.boot_index

All-at :
    (P : ResHdr → Type 0) (xs : List ResHdr) (i : ℕ) {x : ResHdr} → All P xs → at xs i ≡ ok x → P x
All-at P [] i h e = cc
All-at P (y ∷ xs) zero (p, h) e = subst P (ok-injective e) p
All-at P (y ∷ xs) (suc i) (p, h) e = All-at P xs i h e

image-Finishes :
    (size : ℕ) (rd : Reader) (i : ℕ)
    → IsOpened size rd
    → Finishes (IsImageOf size rd i) (image rd i)
unfolding image
image-Finishes size rd i k =
    Finishes-if (ltb i 1 || ltb (length rd.metas) i) (λ _. error)
      λ e.
        let low : 1 ≤ i = ground arith in
        let high : i ≤ length rd.metas = ground arith in
        let count = k.indexed.counted in
        let same = k.informed in
        Finishes-bind (at-Finishes rd.infos (i - 1) no_info (omega arith)) λ info e1.
          Finishes-bind (at-Finishes rd.metas (i - 1) no_meta (omega arith)) λ meta e2. value (
            refl,
            low,
            high,
            e1,
            e2,
            All-at (Inside size) rd.metas (i - 1) k.indexed.loaded.metas_inside e2,
          )

boot-IsImageOf :
    (size : ℕ) (rd : Reader)
    → IsOpened size rd
    → Finishes (IsImageOf size rd (booted_index rd)) (boot rd)
unfolding boot
boot-IsImageOf size rd k = elim (Bool-cases (rd.boot_index == 0)) [
  | inl unset ↦
      rw unset (Finishes-if (length rd.metas == 1) (λ _. image-Finishes size rd 1 k) (λ _. error))
  | inr named ↦
      let count = k.indexed.counted in
      let in_count = k.indexed.booted in
      let lt : rd.boot_index - 1 < length rd.metas = ground arith in
      rw named (
        Finishes-bind (at-Finishes rd.metas (rd.boot_index - 1) no_meta lt) λ meta _.
          Finishes-if (not (rd.boot_meta.offset == 0) && not (rd.boot_meta.offset == meta.offset))
            (λ _. error) (λ _. image-Finishes size rd rd.boot_index k))
]

-- On any Reader that Open returned, whatever the file and the parsed XML are, Boot never panics: it ends
-- with an error, or with the image at the boot index, the first without one, with the info and
-- the metadata resource that the Reader holds for it, which lies in the file. The reader
-- under it keeps the contract of io.ReaderAt.
pub boot-Finishes :
    (parse : XmlParser) (r : ReaderAt) (size : ℕ) (rd : Reader)
    → IsFull r
    → open_wim parse r size ≡ ok rd
    → Finishes (IsImageOf size rd (booted_index rd)) (boot rd)
boot-Finishes parse r size rd full opened =
    boot-IsImageOf size rd (open_wim-IsOpened parse r size rd full opened)
