-- ===== src/Egress/Headers.antt =====
-- What sanitize_broker_headers (app/egress_contract.py) leaves.
use codex_gate.Prelude.{
  ℕ, ◌≡◌, refl, ap, sym, subst, ◌∙◌, Bool, true, false, not, String, [], ◌∷◌, keep, all, Bool-cases,
  inl, inr, arith, if◌then◌else◌, leb, ◌≤◌, leb→le, str_eq,
}
use codex_gate.Prelude.{Result, ok, err}
use codex_gate.Egress.Contract.{
  Headers, is_header_name, is_stripped, with_header, sanitize_broker_headers, host_values,
  is_sole_authority, validate_broker_request, max_request_bytes, request_path, is_absolute,
  check_host,
}

ok-injective : {A : Type 0} {x y : A} → Result.ok x ≡ ok y → x ≡ y
ok-injective e = ground arith

-- When the headers are accepted, each name is a header name, and what is left are the headers, in
-- their order, whose names are not stripped.
pub sanitize-keep :
    (headers clean : Headers)
    → sanitize_broker_headers headers ≡ ok clean
    → (all (λ h. is_header_name h.0) headers ≡ true)
      × (clean ≡ keep (λ h. not (is_stripped h.0)) headers)
unfolding sanitize_broker_headers
sanitize-keep [] clean e = (refl, ground arith)
sanitize-keep ((name, value) ∷ rest) clean e =
    by_rest (sanitize-keep rest) (sanitize_broker_headers rest) (is_header_name name)
      (is_stripped name) refl refl refl e
  where
    by_rest :
        ((tail : Headers)
          → sanitize_broker_headers rest ≡ ok tail
          → (all (λ h. is_header_name h.0) rest ≡ true)
            × (tail ≡ keep (λ h. not (is_stripped h.0)) rest))
        → (r : Result Headers) (valid stripped : Bool) → sanitize_broker_headers rest ≡ r
        → is_header_name name ≡ valid
        → is_stripped name ≡ stripped
        → (if not valid
            then err "broker header is invalid"
            else if stripped
            then r
            else with_header (name, value) r)
          ≡ ok clean
        → (all (λ h. is_header_name h.0) ((name, value) ∷ rest) ≡ true)
          × (clean ≡ keep (λ h. not (is_stripped h.0)) ((name, value) ∷ rest))
    by_rest again r false stripped er ev es e = absurd (ground arith)
    by_rest again (err code) true true er ev es e = absurd (ground arith)
    by_rest again (err code) true false er ev es e = absurd (ground arith)
    by_rest again (ok tail) true true er ev es e =
        let (names, kept) = again tail er in (ground arith, ground arith)
    by_rest again (ok tail) true false er ev es e =
        let (names, kept) = again tail er in (ground arith, ground arith)

-- None of the names that are left is stripped.
pub sanitize-is_stripped :
    (headers clean : Headers)
    → sanitize_broker_headers headers ≡ ok clean
    → all (λ h. not (is_stripped h.0)) clean ≡ true
sanitize-is_stripped headers clean e =
    subst (λ c. all (λ h. not (is_stripped h.0)) c ≡ true) (sym (sanitize-keep headers clean e).1)
      (all-keep headers)
  where
    all-keep :
        (hs : Headers)
        → all (λ h. not (is_stripped h.0)) (keep (λ h. not (is_stripped h.0)) hs) ≡ true
    all-keep [] = refl
    all-keep (h ∷ hs) = let rest = all-keep hs in ground arith

-- What a request that is accepted satisfies.
pub record IsSealed (method path : String) (headers : Headers) (body_bytes : ℕ) (clean : Headers)
    : Type 0 where
  pub posts : str_eq method "POST" ≡ true
  pub on_path : str_eq path request_path ≡ true
  pub fits : body_bytes ≤ max_request_bytes
  pub to_host : is_sole_authority (host_values clean) ≡ true
  pub names : all (λ h. is_header_name h.0) headers ≡ true
  pub kept : clean ≡ keep (λ h. not (is_stripped h.0)) headers

-- When validate_broker_request accepts, the method is POST, the path is /v1/responses, the body has at
-- most 256 KiB, each name is a header name, what is left are the headers, in their order, whose names
-- are not stripped, and among them is one Host, the sealed authority.
pub validate_broker_request-IsSealed :
    (method path : String) (headers : Headers) (body_bytes : ℕ) (clean : Headers)
    → validate_broker_request method path headers body_bytes ≡ ok clean
    → IsSealed method path headers body_bytes clean
unfolding validate_broker_request
validate_broker_request-IsSealed method path headers body_bytes clean e =
    by_tests (str_eq method "POST") (str_eq path request_path) (is_absolute path)
      (leb body_bytes max_request_bytes) (sanitize_broker_headers headers) refl refl refl refl e
  where
    by_tests :
        (post on absolute fits : Bool) (r : Result Headers)
        → str_eq method "POST" ≡ post
        → str_eq path request_path ≡ on
        → leb body_bytes max_request_bytes ≡ fits
        → sanitize_broker_headers headers ≡ r
        → (if not post
            then err "sealed broker permits POST only"
            else if not on
            then err "sealed broker permits /v1/responses only"
            else if absolute
            then err "absolute-form request targets are forbidden"
            else if not fits
            then err "sealed broker request body exceeds its limit"
            else check_host r)
          ≡ ok clean
        → IsSealed method path headers body_bytes clean
    by_tests false on absolute fits r ep eo ef er e = absurd (ground arith)
    by_tests true false absolute fits r ep eo ef er e = absurd (ground arith)
    by_tests true true true fits r ep eo ef er e = absurd (ground arith)
    by_tests true true false false r ep eo ef er e = absurd (ground arith)
    by_tests true true false true (err code) ep eo ef er e = absurd (ground arith)
    by_tests true true false true (ok c) ep eo ef er e =
        elim (Bool-cases (is_sole_authority (host_values c))) [
          | inl sole ↦
              let same : c ≡ clean = ground arith in
              let (names, kept) = sanitize-keep headers clean (er ∙ ap ok same) in
              record {
                posts = ep;
                on_path = eo;
                fits = leb→le body_bytes max_request_bytes ef;
                to_host = subst (λ d. is_sole_authority (host_values d) ≡ true) same sole;
                names = names;
                kept = kept;
              }
          | inr other ↦ absurd (ground arith)
        ]
