-- ===== src/Callback.antt =====
-- callback.go: the page that the OAuth callback answers with. `html/template` turns the data into the
-- page; the built-in template is `none` here.
use google_photos_picker.Base.{String, Bool, Option, ◌==◌, if◌then◌else◌}

abbrev pub default_post_message_type : String
default_post_message_type = "google-photos-picker:oauth"

abbrev pub default_target_origin : String
default_target_origin = "*"

pub record CallbackPage : Type 0 where
  pub post_message_type : String
  pub target_origin : String
  pub html_template : Option String

pub record CallbackData : Type 0 where
  pub status : String
  pub message : String
  pub post_message_type : String
  pub target_origin : String

abbrev or_text : String → String → String
or_text s d = if s == "" then d else s

-- `renderCallback`: the data that the page's template is executed with.
unfoldable pub render_callback : CallbackPage → Bool → String → CallbackData
render_callback page success message = record {
  status = if success then "success" else "error";
  message = message;
  post_message_type = or_text page.post_message_type default_post_message_type;
  target_origin = or_text page.target_origin default_target_origin;
}
