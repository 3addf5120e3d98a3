-- ===== src/Api.antt =====
-- FrontEnd/src/services/api.ts: the requests that the program sends, and what it reads from an
-- answer. Sending is axios' work: a component's handler is given the answer as a `Response`.
pub mod Laws
use Prim.Native.Char.{Char, code}
use Prim.Native.String.{String as Str}
use voting_app.Prelude.{
  ℕ, ◌==◌, String, Bool, true, false, if◌then◌else◌, Option, none, some, List, [], ◌∷◌, ◌++◌, Text,
  is_empty, get_or_else,
}
use voting_app.Decimal.{show}
use voting_app.Types.{Candidate, CustomDomain}

-- The code units of an ASCII literal.
abbrev pub codes : String → Text
codes Str.[] = []
codes (Str.◌∷◌ c s) = code c ∷ codes s

pub data Method : Type 0 where
  get post put delete : Method

-- A value of a JSON object or of a `FormData`; a file is the text of its name in the model.
pub data Value : Type 0 where
  text : Text → Value
  num : ℕ → Value
  bool : Bool → Value
  null : Value
  file : ℕ → Value

pub record Request : Type 0 where
  pub method : Method
  pub path : Text
  pub body : List (String × Value)

-- How a request fails: an axios error with the server's status and the `error` of its data, an
-- axios error with no response (network, timeout), or something else that was thrown.
pub data Failure : Type 0 where
  http : ℕ → Option String → Failure
  network : Failure
  thrown : Failure

pub data Response {ℓ} (A : Type ℓ) : Type ℓ where
  ok : A → Response A
  failed : Failure → Response A

-- `axios.isAxiosError(err) ? err.response?.status : undefined`.
abbrev pub status_of : Failure → Option ℕ
status_of (http status error) = some status
status_of network = none
status_of thrown = none

-- `axios.isAxiosError(err) ? err.response?.data?.error ?? fallback : fallback`.
abbrev pub message_of : String → Failure → String
message_of fallback (http status error) = get_or_else fallback error
message_of fallback network = fallback
message_of fallback thrown = fallback

-- `status === code`.
abbrev pub has_status : ℕ → Failure → Bool
has_status code (http status error) = status == code
has_status code network = false
has_status code thrown = false

-- The response interceptor calls `onUnauthorized` for an answer with status 401.
unfoldable pub intercepts {ℓ} : {A : Type ℓ} → Response A → Bool
intercepts (ok a) = false
intercepts (failed f) = has_status 401 f

unfoldable pub get_all : Request
get_all = record { method = get; path = codes "/api/candidates"; body = [] }

-- `.then((res) => res.data.data.candidates ?? [])`, also in `listDomains`.
unfoldable pub or_empty {ℓ} : {A : Type ℓ} → Response (Option (List A)) → Response (List A)
or_empty (ok l) = ok (get_or_else [] l)
or_empty (failed f) = failed f

unfoldable pub get_status : Request
get_status = record { method = get; path = codes "/api/voting-status"; body = [] }

unfoldable pub request_otp : Text → Text → Text → ℕ → Request
request_otp email fingerprint captcha_token candidate_id = record {
  method = post;
  path = codes "/api/vote/request-otp";
  body =
      ("email", text email)
      ∷ ("fingerprint", text fingerprint)
      ∷ ("captcha_token", text captcha_token)
      ∷ ("candidate_id", num candidate_id)
      ∷ [];
}

unfoldable pub verify : Text → Text → Request
verify email otp = record {
  method = post;
  path = codes "/api/vote/verify";
  body = ("email", text email) ∷ ("otp", text otp) ∷ [];
}

unfoldable pub login : Text → Text → Request
login email password = record {
  method = post;
  path = codes "/api/admin/login";
  body = ("email", text email) ∷ ("password", text password) ∷ [];
}

unfoldable pub logout : Request
logout = record { method = post; path = codes "/api/admin/logout"; body = [] }

unfoldable pub me : Request
me = record { method = get; path = codes "/api/admin/me"; body = [] }

-- `if (description) form.append(…)` and `if (imageFile) form.append(…)`.
abbrev form_description : Text → List (String × Value)
form_description [] = []
form_description (c ∷ s) = ("description", text (c ∷ s)) ∷ []

abbrev form_image : Option ℕ → List (String × Value)
form_image none = []
form_image (some f) = ("image", file f) ∷ []

abbrev pub candidate_form : Text → Text → Option ℕ → List (String × Value)
candidate_form name description image =
    ("name", text name) ∷ (form_description description ++ form_image image)

unfoldable pub add_candidate : Text → Text → Option ℕ → Request
add_candidate name description image = record {
  method = post;
  path = codes "/api/admin/candidates";
  body = candidate_form name description image;
}

abbrev pub candidate_path : ℕ → Text
candidate_path id = codes "/api/admin/candidates/" ++ show id

unfoldable pub update_candidate : ℕ → Text → Text → Option ℕ → Request
update_candidate id name description image = record {
  method = put;
  path = candidate_path id;
  body = candidate_form name description image;
}

unfoldable pub delete_candidate : ℕ → Request
delete_candidate id = record { method = delete; path = candidate_path id; body = [] }

abbrev text_or_null : Option Text → Value
text_or_null none = null
text_or_null (some s) = text s

unfoldable pub update_voting_settings : Bool → Option Text → Request
update_voting_settings is_open ends_at = record {
  method = put;
  path = codes "/api/admin/voting-settings";
  body = ("is_open", bool is_open) ∷ ("ends_at", text_or_null ends_at) ∷ [];
}

unfoldable pub change_password : Text → Text → Request
change_password old_password new_password = record {
  method = put;
  path = codes "/api/admin/change-password";
  body = ("old_password", text old_password) ∷ ("new_password", text new_password) ∷ [];
}

unfoldable pub list_domains : Request
list_domains = record { method = get; path = codes "/api/admin/email-domains"; body = [] }

unfoldable pub add_domain : Text → Request
add_domain domain = record {
  method = post;
  path = codes "/api/admin/email-domains";
  body = ("domain", text domain) ∷ [];
}

unfoldable pub delete_domain : ℕ → Request
delete_domain id = record {
  method = delete;
  path = codes "/api/admin/email-domains/" ++ show id;
  body = [];
}

unfoldable pub update_domain_mode : Bool → Request
update_domain_mode custom_domains_only = record {
  method = put;
  path = codes "/api/admin/email-domains/mode";
  body = ("custom_domains_only", bool custom_domains_only) ∷ [];
}
