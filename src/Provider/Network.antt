-- ===== src/Provider/Network.antt =====
-- What src/py_near/providers.py uses of its surroundings: the HTTP client, the event loop, the
-- clock, and the decoders of the standard library.
use py_near.Base.{ℕ, String, Option, List, Bool}
use py_near.Json.{Json}
use py_near.Errors.Exception.{Raises}
use py_near.Models.Actions.{Codec}

-- A POST: the bearer of the `Authorization` header, if it is sent, whether the `Referer` header is
-- sent, and the timeout in seconds, if it is not the client's own.
pub record Request : Type 0 where
  pub url : String
  pub bearer : Option String
  pub referer : Bool
  pub body : Json
  pub timeout : Option ℕ

-- A response with its status and text, or an exception of the client.
pub data Outcome : Type 0 where
  replied : ℕ → String → Outcome
  raised : Outcome

-- The state of everything outside. `gather` runs one POST for each of the addresses at once and
-- returns the outcomes in the sets in which `asyncio.wait` hands them over, in their order.
-- `utcnow` is the UTC time without a zone, in microseconds, and `as_local` the timestamp that such a
-- time has when it is read as the machine's local time, which is what `timestamp()` does with it.
-- `fromisoformat` is the timestamp of a text, which names its zone.
-- `digest` is `hash(json.dumps(x))`, which Python salts anew for each process.
pub record Network : Type 1 where
  pub World : Type 0
  pub post : Request → World → Outcome × World
  pub gather :
      List String → (String → Raises Request) → World → List (List (String × Outcome)) × World
  pub sleep : ℕ → World → World
  pub utcnow : World → ℕ
  pub as_local : ℕ → ℕ
  pub loads : String → Option Json
  pub fromisoformat : String → Option ℕ
  pub digest : Json → ℕ
  pub codec : Codec
