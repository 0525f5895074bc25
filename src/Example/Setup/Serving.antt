-- ===== src/Example/Setup/Serving.antt =====
-- A server that examples/minimal/main.go started, as it serves.
use google_photos_picker.Base.{ℕ, String, ◌≡◌, List, arith, inl, inr}
use google_photos_picker.Exec.{Result, ok, Result-cases}
use google_photos_picker.System.{System}
use google_photos_picker.OAuth.{Endpoint, Oauth2}
use google_photos_picker.Cryptobox.{Aead, Box, new_box, new_from_hex}
use google_photos_picker.Cryptobox.Hex.{decode_string}
use google_photos_picker.Cryptobox.RoundTrip.{IsAead, FillsBuffer}
use google_photos_picker.Http.{HttpClient}
use google_photos_picker.Picker.{Readers}
use google_photos_picker.Client.{World}
use google_photos_picker.Postgres.Tokens.{TokenTable}
use google_photos_picker.Postgres.Imports.{ImportTable}
use google_photos_picker.Service.{Event, run}
use google_photos_picker.Service.Soundness.{IsSound, run-IsSound}
use google_photos_picker.Example.Setup.{Machine, Server, start}
use google_photos_picker.Example.Setup.Wiring.{start-IsWired}

-- Every cipher that crypto/aes and crypto/cipher give is authenticated.
abbrev pub GivesAead : (List ℕ → Result Aead) → Type 0
GivesAead aes_gcm = (key : List ℕ) (aead : Aead) → aes_gcm key ≡ ok aead → IsAead aead

new_from_hex-aead :
    (aes_gcm : List ℕ → Result Aead) (key_hex : String) (box : Box)
    → new_from_hex aes_gcm key_hex ≡ ok box
    → (key : List ℕ) × (aes_gcm key ≡ ok box.aead)
unfolding new_from_hex new_box
new_from_hex-aead aes_gcm key_hex box h = elim (Result-cases (decode_string key_hex)) [
  | inl (key, e) ↦ (key, ground arith)
  | inr (x, e) ↦ absurd (ground arith)
]

module _ {F X : Type 0} (sys : System X) (aes_gcm : List ℕ → Result Aead) (google : Endpoint)
    (default_client : HttpClient X) (machine : Machine F X) (lib : Oauth2 X)
    (readers : Readers) where
  -- A server that started, with authenticated ciphers and a random source that fills its buffers, keeps its
  -- stores sound through any run from a sound world: the box is the one of its own key.
  pub start-IsSound :
      GivesAead aes_gcm
      → FillsBuffer sys
      → (x : X) (server : Server X)
      → (started : (start sys aes_gcm google default_client machine x).0 ≡ ok server)
      → (es : List (
          Event sys lib readers server.handlers server.worker.poll_interval
            server.worker.job_timeout))
      → (w : World TokenTable ImportTable X)
      → IsSound (start-IsWired sys aes_gcm google default_client machine x server started).0.box w
      → IsSound (start-IsWired sys aes_gcm google default_client machine x server started).0.box (
          run sys lib readers server.handlers server.worker.poll_interval server.worker.job_timeout
            es w)
  start-IsSound law fills x server started es w sound =
      let wired = (start-IsWired sys aes_gcm google default_client machine x server started).0 in
      let (key, given) = new_from_hex-aead aes_gcm _ wired.box wired.keyed in
      run-IsSound sys lib readers server.database wired.box server.handlers
        server.worker.poll_interval server.worker.job_timeout (law key wired.box.aead given) fills
        wired.tokens wired.imports es w sound
