-- ===== src/Webhooks/Admission.antt =====
-- Requests and responses of the admission webhooks
-- (pkg/controller/servicemesh/webhooks/validation/common.go and common/common.go).
use istio_operator.Prelude.{ℕ, Bool, String, List, ◌==◌, ◌||◌}
use istio_operator.Prog.{Result}

-- What a handler reads of admission.Request. The decoder is a library: the request holds what
-- Decode and DecodeRaw give for its object and its old object.
pub record Request (E A : Type 0) : Type 0 where
  pub object : Result E A
  pub old_object : Result E A
  -- whether the operation is Update
  pub is_update : Bool
  pub username : String

-- admission.Response: Allowed, Errored with a status and an error, a failed validation with a status
-- and a message, and a patch to the given members.
pub data Response (E : Type 0) : Type 0 where
  allowed : Response E
  errored : ℕ → E → Response E
  rejected : ℕ → String → Response E
  patched : List String → Response E

module _ {E : Type 0} where
  -- badRequest
  unfoldable pub bad_request : String → Response E
  bad_request message = rejected 400 message

  -- forbidden
  unfoldable pub forbidden : String → Response E
  forbidden message = rejected 403 message

-- NamespaceFilter.Watching
unfoldable pub watching : String → String → Bool
watching filter namespace = filter == "" || namespace == filter
