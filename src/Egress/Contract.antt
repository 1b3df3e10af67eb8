-- ===== src/Egress/Contract.antt =====
-- The checks of a broker request and of its response (app/egress_contract.py). Headers are the items of
-- a dict, in order; all names and values are texts. `casefold` acts on ASCII letters, the only ones
-- in a valid name and in the text that a host is compared with.
use codex_gate.Prelude.{
  ℕ, String, Bool, false, ◌&&◌, ◌||◌, not, List, [], ◌∷◌, length, all, any, codes, leb, ltb, ◌==◌,
  str_eq, casefold, starts_with, contains_codes, same_codes, if◌then◌else◌,
}
use codex_gate.Prelude.{Result, ok, err}

abbrev pub Headers : Type 0
Headers = List (String × String)

-- 256 * 1024 and 2 * 1024 * 1024.
abbrev pub max_request_bytes : ℕ
max_request_bytes = 262144

abbrev pub max_response_bytes : ℕ
max_response_bytes = 2097152

abbrev pub authority : String
authority = "127.0.0.1:8788"

abbrev pub request_path : String
request_path = "/v1/responses"

abbrev is_name_code : ℕ → Bool
is_name_code c =
    (leb b'0' c && leb c b'9')
    || (leb b'a' c && leb c b'z')
    || (leb b'A' c && leb c b'Z')
    || any (λ d. c == d) (codes "!#$%&'*+.^_`|~-")

-- _HEADER.
unfoldable pub is_header_name : String → Bool
is_header_name s =
    leb 1 (length (codes s)) && leb (length (codes s)) 128 && all is_name_code (codes s)

abbrev stripped_names : List String
stripped_names = "authorization" ∷ "cookie" ∷ "proxy-authorization" ∷ "proxy-connection" ∷ []

unfoldable pub is_stripped : String → Bool
is_stripped name =
    any (λ s. same_codes (casefold (codes name)) (codes s)) stripped_names
    || starts_with (casefold (codes name)) (codes "proxy-")

abbrev pub with_header : String × String → Result Headers → Result Headers
with_header h (ok clean) = ok (h ∷ clean)
with_header h (err code) = err code

unfoldable pub sanitize_broker_headers : Headers → Result Headers
sanitize_broker_headers [] = ok []
sanitize_broker_headers ((name, value) ∷ rest) =
    let clean = sanitize_broker_headers rest in
    if not (is_header_name name)
    then err "broker header is invalid"
    else if is_stripped name
    then clean
    else with_header (name, value) clean

unfoldable pub is_host : String → Bool
is_host name = same_codes (casefold (codes name)) (codes "host")

-- `host_values`.
unfoldable pub host_values : Headers → List String
host_values [] = []
host_values ((name, value) ∷ rest) =
    let values = host_values rest in if is_host name then value ∷ values else values

abbrev pub is_sole_authority : List String → Bool
is_sole_authority (value ∷ []) = same_codes (casefold (codes value)) (codes authority)
is_sole_authority _ = false

abbrev pub check_host : Result Headers → Result Headers
check_host (err code) = err code
check_host (ok clean) =
    if is_sole_authority (host_values clean) then ok clean else err "sealed broker host is invalid"

abbrev pub is_absolute : String → Bool
is_absolute path =
    starts_with (codes path) (codes "http://")
    || starts_with (codes path) (codes "https://")
    || contains_codes (codes path) (codes "://")

unfoldable pub validate_broker_request : String → String → Headers → ℕ → Result Headers
validate_broker_request method path headers body_bytes =
    if not (str_eq method "POST")
    then err "sealed broker permits POST only"
    else if not (str_eq path request_path)
    then err "sealed broker permits /v1/responses only"
    else if is_absolute path
    then err "absolute-form request targets are forbidden"
    else if not (leb body_bytes max_request_bytes)
    then err "sealed broker request body exceeds its limit"
    else check_host (sanitize_broker_headers headers)

unfoldable pub validate_broker_response : ℕ → ℕ → Result (Unit {0})
validate_broker_response status body_bytes =
    if not (leb 100 status && leb status 599)
    then err "broker response status is invalid"
    else if leb 300 status && ltb status 400
    then err "broker redirects are forbidden"
    else if not (leb body_bytes max_response_bytes)
    then err "sealed broker response body exceeds its limit"
    else ok tt
