-- ===== src/Wim/Info.antt =====
-- image.go: what a WIM says of an image. An `int` may be negative.
use go_wim.Base.{ℕ, Bool, List, Option}

pub data ℤ : Type 0 where
  pos negsuc : ℕ → ℤ

pub record Version : Type 0 where
  pub major : ℤ
  pub minor : ℤ
  pub build : ℤ
  pub sp_build : ℤ
  pub sp_level : ℤ

pub record WindowsInfo : Type 0 where
  pub arch : ℤ
  pub version : Version
  pub system_root : List ℕ

pub record ImageInfo : Type 0 where
  pub name : List ℕ
  pub description : List ℕ
  pub boot : Bool
  pub windows : Option WindowsInfo
