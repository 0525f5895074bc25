-- ===== src/Http.antt =====
-- net/http as picker.go, client.go and handlers.go use it, and the query strings of net/url. The
-- transport, the network and the servers behind it are the field `do_request` of `HttpClient`.
pub mod Query
use google_photos_picker.Base.{
  ℕ, String, Bool, Option, none, some, List, take, length, leb, if◌then◌else◌, ℤ, to_ℕ,
}
use google_photos_picker.Errors.{other}
use google_photos_picker.Exec.{Result, ok, err, Exec, Context}

pub record Request : Type 0 where
  pub method : String
  pub url : String
  pub headers : List (String × String)
  pub body : Option String

-- What can be read of a body: its bytes, and then the end, or an error in place of the end.
pub record Body : Type 0 where
  pub bytes : List ℕ
  pub broken : Option String

pub record Response : Type 0 where
  pub status : ℕ
  pub body : Body

-- http.Client: `Do`. With a redirect the client follows it, so the response is the last one.
pub record HttpClient (X : Type 0) : Type 0 where
  pub do_request : Context X → Request → Exec X Response

abbrev pub read_to_end : Body → Result (List ℕ)
read_to_end b = elim b.broken [ none ↦ ok b.bytes | some text ↦ err (other text) ]

-- `io.ReadAll(io.LimitReader(body, n))`: n bytes, if there are so many, whatever follows them; else
-- all, or the error. A negative n lets nothing through.
unfoldable pub read_limited : ℤ → Body → Result (List ℕ)
read_limited n b =
    if leb (to_ℕ n) (length b.bytes) then ok (take (to_ℕ n) b.bytes) else read_to_end b

-- The same with the error dropped, `excerpt, _ := io.ReadAll(…)`: what was read before it.
abbrev pub read_excerpt : ℕ → Body → List ℕ
read_excerpt n b = take n b.bytes

-- `resp.StatusCode >= 400`
abbrev pub is_failure : Response → Bool
is_failure r = leb 400 r.status
