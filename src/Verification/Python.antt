-- ===== src/Verification/Python.antt =====
-- What the verifier takes from Python's texts, from `re`, `json` and `hashlib`, and the two text
-- analyses that other parts of the program make. The definitions ask nothing of them.
use grok_mcp_server.Base.{ℕ, Bool, List}
use grok_mcp_server.Base.Texts.{Text}

-- JSON values. An object's fields are in the order of their keys.
mutual
  pub data Value : Type 0 where
    null : Value
    truth : Bool → Value
    number : ℕ → Value
    text : Text → Value
    arr : Items → Value
    obj : Fields → Value

  pub data Items : Type 0 where
    nil : Items
    cons : Value → Items → Items

  pub data Fields : Type 0 where
    end : Fields
    field : Text → Value → Fields → Fields

pub record Python : Type 0 where
  -- `str.strip`, `str.lower`, `str.casefold`, `str.split`, `str.splitlines` and `str.isupper`
  pub strip : Text → Text
  pub lower : Text → Text
  pub casefold : Text → Text
  pub split : Text → List Text
  pub splitlines : Text → List Text
  pub isupper : Text → Bool
  pub isdigit : ℕ → Bool
  pub decimal : ℕ → Text
  -- `str(v or "")` of a value that is not a text
  pub shown : Value → Text
  -- `json.dumps(v, default=str)`
  pub dumps : Value → Text
  -- `json.dumps(v, sort_keys=True, separators=(",", ":"), default=str)`
  pub canonical_dumps : Value → Text
  -- `hashlib.sha256(...).hexdigest()` and `str.encode`
  pub sha256 : Text → Text
  pub utf8 : Text → Text

-- The compiled patterns of task_class.py: whether they are found in a text, the tokens that
-- `_REPLY_WITH` and `_RETURN_EXACTLY` find in it, and the text without these phrases.
pub record Patterns : Type 0 where
  pub structure : Text → Bool
  pub adversarial : Text → Bool
  pub receipt : Text → Bool
  pub work_cue : Text → Bool
  pub informational_proof : Text → Bool
  pub proof_action : Text → Bool
  pub test_outcome : Text → Bool
  pub runtime_outcome : Text → Bool
  pub explicit_evidence : Text → Bool
  pub reply_with : Text → Bool
  pub exact_phrase : Text → Bool
  pub reply_tokens : Text → List Text
  pub return_tokens : Text → List Text
  pub without_phrases : Text → Text
  -- `strip("\"'`")` and `strip(":.,;")`
  pub strip_quotes : Text → Text
  pub strip_marks : Text → Text
