-- ===== src/Dapps/Keypom/Models.antt =====
-- The classes of src/py_near/dapps/keypom/models.py, with the fields that pydantic validates.
use py_near.Base.{ℕ, String, Bool, Option, List}
use py_near.Transactions.{Bytes}

pub data DropPermissionEnum : Type 0 where
  claim create_account_and_claim : DropPermissionEnum

abbrev pub permission_value : DropPermissionEnum → String
permission_value claim = "claim"
permission_value create_account_and_claim = "create_account_and_claim"

pub record DropKeyConfig : Type 0 where
  pub remaining_uses : ℕ
  pub last_used : ℕ
  pub allowance : ℕ
  pub key_id : ℕ
  pub pw_per_use : Option (List (ℕ × Bytes))
  pub pw_per_key : Option Bytes

pub record DropTimeConfig : Type 0 where
  pub start : Option ℕ
  pub end : Option ℕ
  pub throttle : Option ℕ
  pub interval : Option ℕ

pub record DropUsageConfig : Type 0 where
  pub permissions : Option DropPermissionEnum
  pub refund_deposit : Option Bool
  pub auto_delete_drop : Option Bool
  pub auto_withdraw : Option Bool

pub record DropConfig : Type 0 where
  pub uses_per_key : Option ℕ
  pub time : Option DropTimeConfig
  pub usage : Option DropUsageConfig
  pub root_account_id : Option String

pub record SimpleData : Type 0 where
  pub lazy_register : Option Bool

pub record JsonFtData : Type 0 where
  pub contract_id : String
  pub sender_id : String
  pub balance_per_use : ℕ

pub record JsonNftData : Type 0 where
  pub sender_id : String
  pub contract_id : String

pub record FcConfig : Type 0 where
  pub attached_gas : Option ℕ

pub record MethodData : Type 0 where
  pub receiver_id : String
  pub method_name : String
  pub args : String
  pub attached_deposit : ℕ
  pub account_id_field : Option String
  pub drop_id_field : Option String
  pub key_id_field : Option String

pub record FcData : Type 0 where
  pub methods : List (Option (List MethodData))
  pub config : Option FcConfig

pub record JsonKeyInfo : Type 0 where
  pub drop_id : String
  pub pk : String
  pub cur_key_use : ℕ
  pub remaining_uses : ℕ
  pub last_used : ℕ
  pub allowance : ℕ
  pub key_id : ℕ

pub record JsonPasswordForUse : Type 0 where
  pub pw : String
  pub key_use : ℕ

pub record CreateDropModel : Type 0 where
  pub public_keys : Option (List String)
  pub deposit_per_use : ℕ
  pub drop_id : Option String
  pub config : Option DropConfig
  pub metadata : Option String
  pub simple : Option SimpleData
  pub ft : Option JsonFtData
  pub nft : Option JsonNftData
  pub fc : Option FcData
  pub passwords_per_use : Option (List (Option (List JsonPasswordForUse)))
  pub passwords_per_key : Option (List (Option String))
