-- ===== src/Wim/Open.antt =====
-- reader.go: the XML of a WIM, what it says of the images, and `Open`. The parser of encoding/xml is an
-- argument.
pub mod Safety
use go_wim.Base.{
  ℕ, zero, suc, ◌+◌, ◌-◌, ◌%◌, Bool, true, false, not, ◌||◌, List, [], ◌∷◌, Option, none, some, ltb,
  ◌==◌, if◌then◌else◌, length, replicate, Result, ok, err, corrupt, ◌>>=◌, ◌>>◌, guard, at, put,
}
use go_wim.Wim.Names.{utf16_decode, utf8_encode}
use go_wim.Wim.Info.{ℤ, pos, negsuc, Version, WindowsInfo, ImageInfo}
use go_wim.Wim.Dentry.{units}
use go_wim.Wim.Resource.{ReaderAt, read_resource}
use go_wim.Wim.Header.{Reader, open_tables}

pub record XmlVersion : Type 0 where
  pub major : ℤ
  pub minor : ℤ
  pub build : ℤ
  pub sp_build : ℤ
  pub sp_level : ℤ

pub record XmlWindows : Type 0 where
  pub arch : Option ℤ
  pub system_root : List ℕ
  pub version : Option XmlVersion

pub record XmlImage : Type 0 where
  pub index : ℤ
  pub name : List ℕ
  pub description : List ℕ
  pub windows : Option XmlWindows

-- The parser: what `dec.Decode` takes from a text.
abbrev pub XmlParser : Type 0
XmlParser = List ℕ → Result (List XmlImage)

xml_version : Option XmlVersion → Version
xml_version none = record {
  major = pos 0;
  minor = pos 0;
  build = pos 0;
  sp_build = pos 0;
  sp_level = pos 0;
}
xml_version (some v) = record {
  major = v.major;
  minor = v.minor;
  build = v.build;
  sp_build = v.sp_build;
  sp_level = v.sp_level;
}

xml_arch : Option ℤ → ℤ
xml_arch none = pos 0
xml_arch (some a) = a

xml_windows : Option XmlWindows → Option WindowsInfo
unfolding xml_version xml_arch
xml_windows none = none
xml_windows (some w) = some (record {
  arch = xml_arch w.arch;
  version = xml_version w.version;
  system_root = w.system_root;
})

-- `xmlImage.info`
unfoldable pub image_info : XmlImage → ImageInfo
unfolding xml_windows
image_info x = record {
  name = x.name;
  description = x.description;
  boot = false;
  windows = xml_windows x.windows;
}

-- The first unit is dropped where it is the byte order mark.
drop_mark : List ℕ → List ℕ
drop_mark [] = []
drop_mark (u ∷ us) = if u == 0xfeff then us else u ∷ us

-- `decodeXMLText`
unfoldable pub decode_xml_text : List ℕ → Result (List ℕ)
unfolding drop_mark
decode_xml_text raw = do
  guard (not (ltb (length raw) 2)) corrupt
  guard (length raw % 2 == 0) corrupt
  ok (utf8_encode (utf16_decode (drop_mark (units raw))))

-- `im.Index < 1 || im.Index > rd.imageCount`
unfoldable pub image_number : ℤ → ℕ → Result ℕ
image_number (negsuc n) count = err corrupt
image_number (pos n) count = if ltb n 1 || ltb count n then err corrupt else ok n

-- The loop over the parsed images, with what it has seen and the infos so far.
unfoldable pub name_images :
    List XmlImage → ℕ → List Bool → List ImageInfo → Result (List ImageInfo)
unfolding image_number image_info
name_images [] count seen infos = ok infos
name_images (im ∷ ims) count seen infos = do
  index ← image_number im.index count
  named ← at seen index
  guard (not named) corrupt
  seen' ← put seen index true
  infos' ← put infos (index - 1) (image_info im)
  name_images ims count seen' infos'

-- `rd.infos[rd.bootIndex-1].Boot = true`, where there is a boot index.
unfoldable pub mark_boot : ℕ → List ImageInfo → Result (List ImageInfo)
mark_boot index infos =
    if index == 0
    then ok infos
    else (at infos (index - 1) >>= λ info. put infos (index - 1) (record info { boot = true }))

abbrev pub no_info : ImageInfo
no_info = record { name = []; description = []; boot = false; windows = none }

-- The part of `readXML` behind the parser.
unfoldable pub index_images : Reader → List XmlImage → Result Reader
unfolding name_images mark_boot
index_images rd ims = do
  infos ←
      name_images ims rd.image_count (replicate (rd.image_count + 1) false)
        (replicate rd.image_count no_info)
  infos' ← mark_boot rd.boot_index infos
  ok (record rd { infos = infos' })

-- `readXML`
unfoldable pub read_xml : XmlParser → ReaderAt → Reader → Result Reader
unfolding decode_xml_text index_images
read_xml parse r rd = do
  raw ← read_resource r rd.size rd.chunk_size rd.xml_res
  doc ← decode_xml_text raw
  ims ← parse doc
  index_images rd ims

-- `Open`
unfoldable pub open_wim : XmlParser → ReaderAt → ℕ → Result Reader
unfolding read_xml
open_wim parse r size = do rd ← open_tables r size; read_xml parse r rd
