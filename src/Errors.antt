-- ===== src/Errors.antt =====
-- errors.go, and the parts of Go's `errors` and `fmt` that the library uses.
-- A sentinel is a variable of errors.go, or `sql.ErrNoRows`. An error is a sentinel, one of another
-- package, or one that `fmt.Errorf` wraps round it by `%w`.
use Prim.Native.String.{◌++◌}
use google_photos_picker.Base.{String, Bool, true, false}

pub data Sentinel : Type 0 where
  no_tokens job_not_found invalid_config invalid_state not_connected : Sentinel
  download_too_big photo_too_large sql_no_rows : Sentinel

pub data Error : Type 0 where
  sentinel : Sentinel → Error
  other : String → Error
  wrap : String → Error → Error  -- fmt.Errorf("text: %w", err)
  detail : Error → String → Error  -- fmt.Errorf("%w: text", err)

abbrev same : Sentinel → Sentinel → Bool
same no_tokens no_tokens = true
same job_not_found job_not_found = true
same invalid_config invalid_config = true
same invalid_state invalid_state = true
same not_connected not_connected = true
same download_too_big download_too_big = true
same photo_too_large photo_too_large = true
same sql_no_rows sql_no_rows = true
same _ _ = false

-- `errors.Is(err, target)`
abbrev pub is : Error → Sentinel → Bool
is (sentinel s) target = same s target
is (other _) target = false
is (wrap _ e) target = is e target
is (detail e _) target = is e target

sentinel_text : Sentinel → String
sentinel_text no_tokens = "photopicker: no tokens for user"
sentinel_text job_not_found = "photopicker: import job not found"
sentinel_text invalid_config = "photopicker: invalid config"
sentinel_text invalid_state = "photopicker: invalid or expired OAuth state"
sentinel_text not_connected = "photopicker: user has not connected Google"
sentinel_text download_too_big = "photopicker: photo exceeds download cap"
sentinel_text photo_too_large = "photopicker: photo decoded dimensions exceed cap"
sentinel_text sql_no_rows = "sql: no rows in result set"

-- `err.Error()`
unfoldable pub text : Error → String
unfolding sentinel_text
text (sentinel s) = sentinel_text s
text (other t) = t
text (wrap t e) = t ++ (": " ++ text e)
text (detail e t) = text e ++ (": " ++ t)
