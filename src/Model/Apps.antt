-- ===== src/Model/Apps.antt =====
-- internal/model/app.go.
use Prim.Native.Nat.{ℕ}
use Prim.Native.String.{String}
use mathlib.Core.Option.{Option, none}

-- A tag is free text until the upload handler has checked it.
pub data AppTag : Type 0 where
  finance game tool ecommerce : AppTag
  other_tag : String → AppTag

pub data AppStatus : Type 0 where
  unprotected processing completed failed : AppStatus

pub data RiskLevel : Type 0 where
  low medium high critical : RiskLevel

pub record App : Type 0 where
  pub id : ℕ
  pub name : String
  pub package_name : String
  pub version : String
  pub tag : AppTag
  pub status : AppStatus
  pub risk_level : Option RiskLevel
  pub file_size : ℕ
  pub object_key : String
  pub md5 : String
  pub sha256 : String
  pub uploaded_by : ℕ
  pub created_at : ℕ
  pub updated_at : ℕ

-- `model.App{}`, the association of a task whose app is gone.
abbrev pub zero_app : App
zero_app = record {
  id = 0;
  name = "";
  package_name = "";
  version = "";
  tag = other_tag "";
  status = AppStatus.unprotected;
  risk_level = none;
  file_size = 0;
  object_key = "";
  md5 = "";
  sha256 = "";
  uploaded_by = 0;
  created_at = 0;
  updated_at = 0;
}
