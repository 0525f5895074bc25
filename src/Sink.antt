-- ===== src/Sink.antt =====
-- sink.go: what is handed to the consumer's sink for each photo. The sink is the consumer's code, and a
-- parameter; what it keeps is a part of the environment.
use google_photos_picker.Base.{ℕ, String, List}
use google_photos_picker.Exec.{Exec, Context}
use google_photos_picker.Stores.{Metadata}

pub record DownloadedPhoto : Type 0 where
  pub google_media_id : String
  pub filename : String
  pub mime_type : String
  pub size : ℕ
  pub bytes : List ℕ
  pub job_metadata : Metadata

pub record PhotoSink (X : Type 0) : Type 0 where
  pub save_photo : Context X → String → String → DownloadedPhoto → Exec X String

-- `SinkFunc`, a function as a sink.
abbrev pub sink_func :
    {X : Type 0} → (Context X → String → String → DownloadedPhoto → Exec X String) → PhotoSink X
sink_func f = record { save_photo = f }
