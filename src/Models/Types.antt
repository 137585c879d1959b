-- ===== src/Models/Types.antt =====
-- `ActionType` of src/py_near/models.py.
use py_near.Base.{String}

pub data ActionType : Type 0 where
  function_call transfer delete_account create_account add_key : ActionType
  stake delete_key deploy_contract delegate : ActionType

-- The value of the member, a text.
abbrev pub type_name : ActionType → String
type_name ActionType.function_call = "FunctionCall"
type_name ActionType.transfer = "Transfer"
type_name ActionType.delete_account = "DeleteAccount"
type_name ActionType.create_account = "CreateAccount"
type_name ActionType.add_key = "AddKey"
type_name ActionType.stake = "Stake"
type_name ActionType.delete_key = "DeleteKey"
type_name ActionType.deploy_contract = "DeployContract"
type_name ActionType.delegate = "Delegate"
