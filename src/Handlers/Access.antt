-- ===== src/Handlers/Access.antt =====
-- The handlers that are for users (handlers.go), and a request without one.
use google_photos_picker.Base.{ℕ, ◌≡◌, refl, List}
use google_photos_picker.Errors.{Error}
use google_photos_picker.Exec.{Result, err}
use google_photos_picker.System.{System}
use google_photos_picker.Stores.{Metadata}
use google_photos_picker.OAuth.{Oauth2}
use google_photos_picker.Picker.{Readers}
use google_photos_picker.Client.{World}
use google_photos_picker.Handlers.{
  Incoming, Reply, unauthorized, Handlers, connect, get_status, delete_tokens, create_session,
  poll_session, post_import, get_import_status,
}

module _ {T J X : Type 0} (sys : System X) (lib : Oauth2 X) (readers : Readers)
    (h : Handlers T J X) where
  -- The operations that are for a user.
  pub data Operation : Type 0 where
    connecting reading disconnecting creating polling looking : Operation
    importing : (List ℕ → Result Metadata) → Operation

  unfoldable pub serve : Operation → Incoming X → World T J X → Reply × World T J X
  serve connecting = connect sys lib readers h
  serve reading = get_status sys lib readers h
  serve disconnecting = delete_tokens sys lib readers h
  serve creating = create_session sys lib readers h
  serve polling = poll_session sys lib readers h
  serve looking = get_import_status sys lib readers h
  serve (importing envelope) = post_import sys lib readers h envelope

  pub serve-unauthorized :
      (op : Operation) (r : Incoming X) (e : Error) (w : World T J X)
      → r.user ≡ err e
      → serve op r w ≡ (unauthorized, w)
  unfolding serve connect get_status delete_tokens create_session poll_session post_import
      get_import_status
  serve-unauthorized connecting r e w h = rw h refl
  serve-unauthorized reading r e w h = rw h refl
  serve-unauthorized disconnecting r e w h = rw h refl
  serve-unauthorized creating r e w h = rw h refl
  serve-unauthorized polling r e w h = rw h refl
  serve-unauthorized looking r e w h = rw h refl
  serve-unauthorized (importing envelope) r e w h = rw h refl
