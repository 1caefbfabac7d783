-- ===== src/Model/Strategies.antt =====
-- internal/model/strategy.go. The three string types hold what a request sent where nothing has
-- validated it, so each has a constructor for any other text.
use Prim.Native.Nat.{ℕ}
use Prim.Native.String.{String}
use mathlib.Core.Bool.{Bool, true, false}
use mathlib.Core.List.{List, []}
use beetle_shield_backend.Prelude.Int.{ℤ, pos}

pub data SoShellType : Type 0 where
  no_shell vmp : SoShellType
  other_shell : String → SoShellType

pub data DexObfuscationLevel : Type 0 where
  low medium high : DexObfuscationLevel
  other_level : String → DexObfuscationLevel

pub data SigPolicy : Type 0 where
  warn block : SigPolicy
  other_policy : String → SigPolicy

pub record Strategy : Type 0 where
  pub id : ℕ
  pub name : String
  pub description : String
  pub is_default : Bool
  pub frida : Bool
  pub xposed : Bool
  pub emulator : Bool
  pub dex_level : DexObfuscationLevel
  pub string_encrypt : Bool
  pub res_mix : Bool
  pub so_shell : SoShellType
  pub so_strength : ℤ
  pub target_sos : List String
  pub root_detect : Bool
  pub signature : Bool
  pub sig_policy : SigPolicy
  pub anti_hook : Bool
  pub res_encrypt : Bool
  pub screenshot_protect : Bool
  pub file_integrity_check : Bool
  pub proxy_detect : Bool
  pub vmp_rules_text : String
  pub created_by : ℕ
  pub updated_by : ℕ
  pub created_at : ℕ
  pub updated_at : ℕ

-- `model.Strategy{}`
abbrev pub zero_strategy : Strategy
zero_strategy = record {
  id = 0;
  name = "";
  description = "";
  is_default = false;
  frida = false;
  xposed = false;
  emulator = false;
  dex_level = other_level "";
  string_encrypt = false;
  res_mix = false;
  so_shell = other_shell "";
  so_strength = pos 0;
  target_sos = [];
  root_detect = false;
  signature = false;
  sig_policy = other_policy "";
  anti_hook = false;
  res_encrypt = false;
  screenshot_protect = false;
  file_integrity_check = false;
  proxy_detect = false;
  vmp_rules_text = "";
  created_by = 0;
  updated_by = 0;
  created_at = 0;
  updated_at = 0;
}

abbrev pub is_high : DexObfuscationLevel → Bool
is_high high = true
is_high _ = false

abbrev pub is_vmp : SoShellType → Bool
is_vmp vmp = true
is_vmp _ = false
