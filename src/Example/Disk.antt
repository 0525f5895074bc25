-- ===== src/Example/Disk.antt =====
-- `localSink` of examples/minimal/main.go, which saves each photo to a file of its own under the
-- directory of its user, and returns the file's path.
pub mod Plain
use Prim.Native.String.{◌++◌ as join}
use google_photos_picker.Base.{ℕ, String, Bool, true, false, ◌||◌, List, ◌==◌, if◌then◌else◌}
use google_photos_picker.Base.Strings.{contains}
use google_photos_picker.Errors.{Error, wrap}
use google_photos_picker.Exec.{
  Result, ok, err, Exec, Context, pure, gets, wrapping, continue, ◌>>=◌, ◌>>◌,
}
use google_photos_picker.Sink.{DownloadedPhoto, PhotoSink}
use google_photos_picker.Example.Paths.{ext, join_path}

-- `os` and the package uuid, as far as the sink calls them.
pub record Files (X : Type 0) : Type 0 where
  pub mkdir_all : String → Exec X (Unit {0})
  pub create : String → Exec X (Unit {0})
  pub copy : String → List ℕ → Exec X (Unit {0})  -- io.Copy of these bytes to the file
  pub new_uuid : X → String × X

-- `extFromMime`
unfoldable pub ext_from_mime : String → String
unfolding contains
ext_from_mime mime =
    if contains mime "jpeg" || contains mime "jpg"
    then ".jpg"
    else if contains mime "png"
    then ".png"
    else if contains mime "gif"
    then ".gif"
    else if contains mime "webp"
    then ".webp"
    else if contains mime "heic"
    then ".heic"
    else ".jpg"

unfoldable pub extension : DownloadedPhoto → String
unfolding ext ext_from_mime
extension p = if ext p.filename == "" then ext_from_mime p.mime_type else ext p.filename

module _ {X : Type 0} (files : Files X) (dir : String) where
  abbrev pub uuid_of : Exec X String
  uuid_of x = let (id, x') = files.new_uuid x in (ok id, x')

  -- `localSink.SavePhoto`
  unfoldable pub save_photo : Context X → String → String → DownloadedPhoto → Exec X String
  unfolding extension join_path
  save_photo ctx user_id job_id p = do
    uuid ← uuid_of
    let name = join uuid (extension p)
    let user_dir = join_path dir user_id
    wrapping (wrap "create dir") (files.mkdir_all user_dir)
    let dst = join_path user_dir name
    wrapping (wrap "create file") (files.create dst)
    wrapping (wrap "write file") (files.copy dst p.bytes)
    pure dst

  abbrev pub local_sink : PhotoSink X
  local_sink = record { save_photo = save_photo }
