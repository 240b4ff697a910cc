-- ===== src/Http/Request.antt =====
-- network/http/net_http_request.h: the request that the parser fills in.
use my_streamer.Prelude.{
  ℕ, Bool, true, false, ◌&&◌, ◌||◌, [], ◌∷◌, Option, none, some, ◌==◌, leb, if◌then◌else◌,
}
use my_streamer.Prelude.Text.{Text, codes, equal}
use my_streamer.Prelude.Assoc.{Map, put}

pub data Method : Type 0 where
  k_invalid k_get k_post k_head k_put k_delete : Method

pub data Version : Type 0 where
  k_unknown k_http10 k_http11 : Version

-- The time of receipt is in microseconds.
pub record HttpRequest : Type 0 where
  pub method : Method
  pub version : Version
  pub path : Text
  pub query : Text
  pub receive_time : ℕ
  pub headers : Map

abbrev pub fresh_request : HttpRequest
fresh_request = record {
  method = k_invalid;
  version = k_unknown;
  path = [];
  query = [];
  receive_time = 0;
  headers = [];
}

abbrev pub method_of : Text → Method
method_of m =
    if equal m (codes "GET")
    then k_get
    else if equal m (codes "POST")
    then k_post
    else if equal m (codes "HEAD")
    then k_head
    else if equal m (codes "PUT")
    then k_put
    else if equal m (codes "DELETE")
    then k_delete
    else k_invalid

abbrev pub is_invalid : Method → Bool
is_invalid k_invalid = true
is_invalid _ = false

-- `none` is a failure of the assertion that no method was set before.
unfoldable pub set_method : Text → HttpRequest → Option HttpRequest
set_method m q = if is_invalid q.method then some (record q { method = method_of m }) else none

-- `isspace` in the locale "C"
abbrev pub is_space : ℕ → Bool
is_space c = c == 32 || (leb 9 c && leb c 13)

unfoldable pub drop_spaces : Text → Text
drop_spaces [] = []
drop_spaces (c ∷ t) = if is_space c then drop_spaces t else c ∷ t

-- `value.resize` for as long as a space stands at the end
unfoldable pub drop_last_spaces : Text → Text
drop_last_spaces [] = []
drop_last_spaces (c ∷ t) = elim (drop_last_spaces t) [
  | [] ↦ if is_space c then [] else c ∷ []
  | d ∷ r ↦ c ∷ d ∷ r
]

unfoldable pub trim : Text → Text
unfolding drop_spaces drop_last_spaces
trim t = drop_last_spaces (drop_spaces t)

-- The value is what stands behind the colon.
unfoldable pub add_header : Text → Text → HttpRequest → HttpRequest
add_header field value q = record q { headers = put field (trim value) q.headers }

-- `getHeader`: a header that is missing is the empty text.
unfoldable pub get_header : Text → Map → Text
get_header field [] = []
get_header field ((k, v) ∷ m) = if equal field k then v else get_header field m

unfoldable pub method_string : Method → Text
method_string k_invalid = codes "UNKNOWN"
method_string k_get = codes "GET"
method_string k_post = codes "POST"
method_string k_head = codes "HEAD"
method_string k_put = codes "PUT"
method_string k_delete = codes "DELETE"
