-- ===== src/Handlers/Replies.antt =====
-- What the replies of the handlers say of what happened.
use Prim.Native.String.{◌++◌ as join}
use google_photos_picker.Base.{
  Bool-cases, Option, String, ◌≡◌, ◌≢◌, ◌↔◌, refl, true, false, ◌||◌, inl, inr, ◌==◌, eq_iff, arith,
}
use google_photos_picker.Errors.{Error, invalid_state, is}
use google_photos_picker.Exec.{Result, ok, err}
use google_photos_picker.System.{System}
use google_photos_picker.OAuth.{Oauth2}
use google_photos_picker.Picker.{Readers}
use google_photos_picker.Callback.{CallbackData, render_callback}
use google_photos_picker.Client.{World, complete_consent}
use google_photos_picker.Handlers.{
  Incoming, Reply, page, Handlers, query_value, callback, callback_page, reply_to, consent_failed,
}

module _ {T J X : Type 0} (sys : System X) (lib : Oauth2 X) (readers : Readers)
    (h : Handlers T J X) where
  -- The reply is a page (which is sent with 200) that tells the window that opened it of a success.
  pub data SaysSuccess : Reply → Type 0 where
    says :
        (template : Option String) (d : CallbackData)
        → d.status ≡ "success"
        → SaysSuccess (page template d)

  says-status :
      (template : Option String) (d : CallbackData)
      → SaysSuccess (page template d)
      → d.status ≡ "success"
  says-status _ _ (says template d e) = e

  not_success : (message : String) → SaysSuccess (callback_page sys lib readers h false message) → ⊥
  unfolding render_callback
  not_success message e = not_same (says-status _ _ e)
    where
      not_same : ◌≢◌ {A = String} "error" "success"
      not_same bad = ground (arith, eq_iff "error" "success")

  a_success : SaysSuccess (callback_page sys lib readers h true "")
  unfolding render_callback
  a_success = says _ _ refl

  -- What `CompleteConsent` returns for the request's state and code.
  abbrev pub consent : Incoming X → World T J X → Result String
  consent r w =
      (complete_consent sys lib readers h.client r.context (query_value r.query "state")
        (query_value r.query "code") w).0

  module _ (r : Incoming X) (w : World T J X) where
    abbrev refused : String
    refused = query_value r.query "error"

    abbrev state : String
    state = query_value r.query "state"

    abbrev code : String
    code = query_value r.query "code"

    refused_reply :
        (refused == "") ≡ false
        → (callback sys lib readers h r w).0
          ≡ callback_page sys lib readers h false
              (join "Google consent was cancelled or failed: " refused)
    unfolding callback
    refused_reply e = rw e refl

    missing_reply :
        (refused == "") ≡ true
        → (code == "" || state == "") ≡ true
        → (callback sys lib readers h r w).0
          ≡ callback_page sys lib readers h false "Missing code or state in callback."
    unfolding callback
    missing_reply e m = rw (e, m) refl

    asked_reply :
        (refused == "") ≡ true
        → (code == "" || state == "") ≡ false
        → (callback sys lib readers h r w).0
          ≡ reply_to
              (consent r w)
              (λ u. callback_page sys lib readers h true "")
              (consent_failed sys lib readers h)
    unfolding callback
    asked_reply e m = rw (e, m) refl

    failed_reply : (e : Error) → SaysSuccess (consent_failed sys lib readers h e) → ⊥
    failed_reply e = elim (Bool-cases (is e invalid_state)) [
      | inl b ↦ rw b (not_success "Invalid or expired state.")
      | inr b ↦ rw b (not_success "Token exchange failed.")
    ]

    asked_iff :
        (res : Result String)
        → SaysSuccess (
            reply_to res
              (λ u. callback_page sys lib readers h true "")
              (consent_failed sys lib readers h))
          ↔ ((user_id : String) × (res ≡ ok user_id))
    asked_iff (ok u) = (λ _. (u, refl), λ _. a_success)
    asked_iff (err e) = (λ b. absurd (failed_reply e b), λ (u, b). absurd (ground arith))

    -- The callback answers with a page whose status is "success" exactly when Google sent no error, the request has a code and a
    -- state, and the consent was completed with them.
    pub callback_success_iff : SaysSuccess (callback sys lib readers h r w).0 ↔ (
        (refused ≡ "")
        × (code ≢ "")
        × (state ≢ "")
        × ((user_id : String) × (consent r w ≡ ok user_id)))
    callback_success_iff = elim (Bool-cases (refused == "")) [
      | inr e ↦ rw (refused_reply e) (
        λ b. absurd (not_success _ b),
        λ (none_sent, _, _, _). absurd (ground (arith, eq_iff refused "")),
      )
      | inl e ↦ elim (Bool-cases (code == "" || state == "")) [
        | inl m ↦ rw (missing_reply e m) (
          λ b. absurd (not_success _ b),
          λ (_, c, s, _). absurd (ground (arith, eq_iff code "", eq_iff state "")),
        )
        | inr m ↦ rw (asked_reply e m) (
            let (to, from) = asked_iff (consent r w) in
            (
              λ b. (
                ground (arith, eq_iff refused ""),
                ground (arith, eq_iff code ""),
                ground (arith, eq_iff state ""),
                to b,
              ),
              λ (_, _, _, done). from done,
            ))
      ]
    ]
