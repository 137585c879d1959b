-- ===== src/Tests/Requests.antt =====
-- A run of the theorem on the requests of an account of src/py_near/account.py and its clients.
use py_near.Base.{ℕ, false, true, none, List, [], ◌∷◌, refl}
use py_near.Text.Decimal.{decimal}
use py_near.Provider.Client.{address}
use py_near.Transactions.{bytes, public_key_of}
use py_near.Account.State.{Account, new_account}
use py_near.Dapps.Views.{Outside}
use py_near.Dapps.Fts.{usdt}
use py_near.Dapps.Requests.{
  Request, AllPerformed, send_money, stake, ft_transfer, staking_unstake, new_account-AllPerformed,
}
use py_near.Tests.Fixtures.{key, made, net, prim}

-- Amounts that are whole numbers.
abbrev pub out : Outside
out = record {
  Float = ℕ;
  divided = λ amount digits. amount;
  units = λ amount digits. decimal amount;
  written = λ amount. decimal amount;
  ft_token_metadata = λ fs. none;
  staking_data = λ fs. none;
}

abbrev requests : List (Request prim net out)
requests =
    send_money "bob.near" 10 true false
    ∷ ft_transfer usdt "bob.near" 5 "" true false
    ∷ stake "ed25519:key" "1000" true
    ∷ staking_unstake 7 false
    ∷ []

new_account-AllPerformed_example :
    AllPerformed prim net out requests (record { account = made; nonces = []; world = [] })
unfolding new_account py_near.Account.State.add_keys py_near.Account.State.add_key public_key_of
    py_near.Transactions.take
new_account-AllPerformed_example =
    new_account-AllPerformed prim net out "alice.near" (bytes key ∷ []) (address "http://a") made []
      [] requests (key, [], refl) refl
