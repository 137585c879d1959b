-- ===== src/Lib.antt =====
-- The Python client py_near of the NEAR blockchain: how it asks the nodes, which exception it makes
-- of their answers, how an account signs and submits transactions, and the models of what comes
-- back.
--
-- The parts and their files, with the paths of the repository's root:
--   * src/py_near/providers.py, `JsonProvider`: Provider. `Network` is what lies outside (the HTTP
--     client, the event loop, the clock, the decoders). `Client` is the constructor and the inner
--     function `f` of `call_rpc_request`; `Failover` and `Broadcast` are the two halves of that
--     method, `Calls` the method, `Response` is `get_error_from_response`, `Rpc` is `json_rpc` and
--     the calls that send and look for transactions, `Health` is `_check_available_rpcs` and
--     `get_status`, `Queries` the other requests, and `Address` the key in an address. `Recorded`
--     is a network that writes down what is posted, and `Questions` tells what each method posts.
--   * src/py_near/exceptions/provider.py and exceptions.py: Errors. `Classes` is the hierarchy with
--     its tables, `Build` the constructors, `Kinds` is `parse_error` with the classes that it makes.
--     The `Annotations` of both are the attributes that the class bodies announce.
--   * src/py_near/models.py: Models. `Types` and `Keys` are the types of actions and the access keys,
--     `Receipt` the dataclasses of actions, `Actions` what `ReceiptAction.build` makes, `Delegate`
--     is `from_bytes` with the hashes of delegate actions, `Results` the outcomes and results of
--     transactions.
--   * src/py_near/constants.py: Constants. src/py_near/utils.py: Utils.
--   * src/py_near/transactions.py: Transactions.
--   * src/py_near/account.py: Account. `State` is the object with its constructor, `Chain` the
--     methods that ask the provider, `Answers` how they read what it says, `Submit` is
--     `sign_and_submit_tx` with `Sign`, `Calls` the calls made with it, `Delegate` the delegate
--     actions. `History` is about calls one after another, `Pool` about the keys that calls take
--     before any of them has ended, and `Asked` about what the calls post to the nodes.
--   * src/py_near/dapps: Dapps. `Ft`, `Staking` and `Keypom` are the clients, `Fts` the
--     tokens, `Views` how results are read, `Raised` the exceptions of the clients and `Except`
--     their handlers, and `Requests` puts the calls of an account and of its clients one after
--     another, with what they leave, what they raise and how much they submit.
--   * Python's own operations: Python, Text and Json. `Base` holds what all files share.
--
-- An account calls its provider, whose answers go through the exceptions and the models; the nonces
-- are an attribute of the class `Account`, so they stand beside the account in the state. A method
-- takes the state and returns a result or an exception with the state behind it. Awaiting is a call
-- like any other, except in `Account.Race`, where calls that run at once are a step relation, and in
-- `Broadcast`, where the sets in which the tasks end are an input.
--
-- Numbers are natural numbers, times are microseconds. A threshold of `None` is 0. The loops run
-- over lists; `wait_for_trx` has its six rounds, and `is_subclass` five levels, which is as deep
-- as the hierarchy is. A call that would wait for ever is `none` in `sign_and_submit_tx`.
--
-- Third-party code is a parameter: `Network` for httpx, asyncio and the decoders of the standard
-- library, `Primitives` for base58, base64, nacl and py_near_primitives, `Outside` for floating
-- point numbers and pydantic, `Library` for what `from_bytes` asks of other packages. The theorems
-- on `from_bytes` assume of it that base64 decodes what it encoded and that the classes of
-- py_near_primitives take the arguments that they document, `Account.Answered` that base58 writes
-- no hash as the empty text, `Account.Delegate.Created` that base58 decodes what it encoded, and
-- `Account.Outcome` that `StakeAction` takes no text as an amount; no other theorem assumes anything
-- of third-party code. Log messages and the locks of an account, which are never taken, are left
-- out, as is the first of the two classes `AccessKey`, which the second one hides.
pub mod Base
pub mod Constants
pub mod Text
pub mod Json
pub mod Errors
pub mod Python
pub mod Models
pub mod Provider
pub mod Transactions
pub mod Account
pub mod Dapps
pub mod Utils
pub mod Tests
