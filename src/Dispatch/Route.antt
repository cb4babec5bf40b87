-- ===== src/Dispatch/Route.antt =====
-- `_extract_route` and `_classify_kind` of src/elke27_lib/dispatcher_loop.py.
use Prim.Native.String.{◌++◌ as ◌+++◌}
use text.Mathlib.Text.{◌==◌ as str_eq}
use elke.Base.{
  ℕ, Bool, true, not, ◌&&◌, ◌||◌, Option, none, some, List, [], ◌∷◌, String, ◌==◌, if◌then◌else◌,
}
use elke.Dispatch.Json.{
  ℤ, pos, negsuc, Json, object, Members, empty, member, keys, get, has, as_int, is_mapping, is_code,
  truthy, is_text, type_name,
}

abbrev pub RouteKey : Type 0
RouteKey = String × String

pub data MessageKind : Type 0 where
  unknown directed broadcast : MessageKind

pub data DispatchSeverity : Type 0 where
  debug info warning error : DispatchSeverity

-- The codes ERR_ROOT_EMPTY to ERR_INVALID_SEQ.
pub data ErrorCode : Type 0 where
  root_empty root_multi domain_empty domain_multi unexpected_value_type invalid_seq : ErrorCode

abbrev pub code_text : ErrorCode → String
code_text root_empty = "root_empty"
code_text root_multi = "root_multi"
code_text domain_empty = "domain_empty"
code_text domain_multi = "domain_multi"
code_text unexpected_value_type = "unexpected_value_type"
code_text invalid_seq = "invalid_seq"

pub record DispatchError : Type 0 where
  pub code : ErrorCode
  pub message : String
  pub domain : Option String
  pub name : Option String
  pub keys : List String
  pub severity : DispatchSeverity

-- `k in META_KEYS`
abbrev pub is_meta : String → Bool
is_meta k = str_eq k "seq" || str_eq k "session_id"

-- `[k for k in msg if k not in META_KEYS]`
abbrev pub root_non_meta : Members → List String
root_non_meta empty = []
root_non_meta (member k v m) = if is_meta k then root_non_meta m else k ∷ root_non_meta m

-- `k in allowed_keys`
abbrev pub is_error_key : String → Bool
is_error_key k =
    str_eq k "error_code"
    || str_eq k "error_message"
    || str_eq k "error_text"
    || str_eq k "error_detail"
    || str_eq k "error_payload"
    || str_eq k "payload"
    || str_eq k "detail"

abbrev pub all : (String → Bool) → List String → Bool
all p [] = true
all p (k ∷ ks) = p k && all p ks

-- `_is_root_error_envelope`
unfoldable pub is_root_error_envelope : Members → Bool
unfolding truthy
is_root_error_envelope msg =
    let message = get "error_message" msg in
    is_code (get "error_code" msg)
    && is_text (if truthy message then message else get "error_text" msg)
    && all is_error_key (root_non_meta msg)

-- The keys that the loop of `_is_domain_root_error` steps over.
abbrev is_error_field : String → Bool
is_error_field k = str_eq k "error_code" || str_eq k "error_message" || str_eq k "error_text"

-- No other key holds a mapping.
unfoldable pub no_command : Members → Bool
no_command empty = true
no_command (member k v m) = (is_error_field k || not (is_mapping v)) && no_command m

-- `_is_domain_root_error`
unfoldable pub is_domain_root_error : Members → Bool
unfolding no_command
is_domain_root_error domain_value =
    is_code (get "error_code" domain_value) && no_command domain_value

abbrev fault : ErrorCode → String → Option String → Option String → List String → DispatchError
fault code message domain name keys = record {
  code = code;
  message = message;
  domain = domain;
  name = name;
  keys = keys;
  severity = warning;
}

-- The route of a domain whose object has these keys.
abbrev pub object_route : String → List String → RouteKey × List DispatchError
object_route domain [] = (
  (domain, "__empty__"),
  fault domain_empty
        ("Domain '" +++ (domain +++ "' object is empty; cannot determine message name."))
        (some domain) (some "__empty__") []
      ∷ [],
)
object_route domain (k ∷ []) = ((domain, k), [])
object_route domain (k ∷ l ∷ ks) = (
  (domain, "__root__"),
  fault domain_multi
        ("Domain '"
          +++ (domain +++ "' object contains multiple keys; routing to domain-level handler."))
        (some domain) (some "__root__") (k ∷ l ∷ ks)
      ∷ [],
)

abbrev pub domain_route : String → Json → RouteKey × List DispatchError
domain_route domain (object v) =
    if is_domain_root_error v then ((domain, "error"), []) else object_route domain (keys v)
domain_route domain v = (
  (domain, "__value__"),
  fault unexpected_value_type
        ("Domain '"
          +++ (domain
              +++ ("' value is unexpected type '"
                  +++ (type_name v +++ "'; routing to domain-level handler."))))
        (some domain) (some "__value__") []
      ∷ [],
)

abbrev pub root_route : Members → List String → RouteKey × List DispatchError
root_route msg [] = (
  ("__root__", "__empty__"),
  fault root_empty "No domain keys present at root (only meta keys found)." (some "__root__")
        (some "__empty__") (keys msg)
      ∷ [],
)
root_route msg (domain ∷ []) = domain_route domain (get domain msg)
root_route msg (_ ∷ _ ∷ _) = (
  ("__root__", "__multi__"),
  fault root_multi "Multiple domain keys present at root; cannot determine a single domain."
        (some "__root__") (some "__multi__") (keys msg)
      ∷ [],
)

-- `_extract_route`
unfoldable pub extract_route : Members → RouteKey × List DispatchError
unfolding is_root_error_envelope is_domain_root_error
extract_route msg =
    if is_root_error_envelope msg
    then (("__error__", "panel_error"), [])
    else root_route msg (root_non_meta msg)

abbrev bad_seq : String → Option ℕ × MessageKind × List DispatchError
bad_seq message = (none, unknown, fault invalid_seq message none none ("seq" ∷ []) ∷ [])

abbrev pub kind_of : Json → Option ℤ → Option ℕ × MessageKind × List DispatchError
kind_of v none = bad_seq ("Invalid seq type '" +++ (type_name v +++ "' (expected int)."))
kind_of v (some (pos n)) = if n == 0 then (some 0, broadcast, []) else (some n, directed, [])
kind_of v (some (negsuc _)) =
    bad_seq "Invalid seq value (expected 0 for broadcast or >0 for directed)."

-- `_classify_kind`; the seq that is kept is never negative.
unfoldable pub classify_kind : Members → Option ℕ × MessageKind × List DispatchError
classify_kind msg =
    if has "seq" msg then kind_of (get "seq" msg) (as_int (get "seq" msg)) else (none, unknown, [])
