-- ===== src/Picker/Transport.antt =====
-- `googleRequest` and `googleJSON`: what has happened when they succeed, and how they fail.
use google_photos_picker.Base.{
  String, ◌≡◌, ◌↔◌, sym, ap, ◌∙◌, false, Option, none, some, Option-cases, Bool-cases, inl, inr,
  if◌then◌else◌, arith,
}
use google_photos_picker.Errors.{Error, other}
use google_photos_picker.Exec.{Result, ok, err, Exec, Context, Result-cases, with_state}
use google_photos_picker.Http.{Body, Response, HttpClient, is_failure}
use google_photos_picker.Picker.{
  Authorizer, Readers, authorized, status_error, google_request, google_json,
}

module _ (readers : Readers) {T X : Type 0} (hc : HttpClient X) (auth : Authorizer T X)
    (ctx : Context X) (user_id method url : String) (body : Option String) where
  abbrev send : Exec (T × X) Response
  send = google_request readers hc auth ctx user_id method url body

  -- The request went out with the user's own token, and this response to it was accepted.
  pub record IsAnswered (w : T × X) (resp : Response) (w' : T × X) : Type 0 where
    pub access : String
    pub granted : (auth ctx user_id w).0 ≡ ok access
    pub formed : readers.request_error method url ≡ none
    pub answered :
        (hc.do_request ctx (authorized access method url body) (auth ctx user_id w).1.1).0 ≡ ok resp
    pub accepted : is_failure resp ≡ false
    pub world_eq : w' ≡ (
      (auth ctx user_id w).1.0,
      (hc.do_request ctx (authorized access method url body) (auth ctx user_id w).1.1).1,
    )

  module _ (w v : T × X) where
    refused : (e : Error) → auth ctx user_id w ≡ (err e, v) → send w ≡ (err e, v)
    unfolding google_request
    refused e h = rw h

    malformed :
        (access text : String)
        → auth ctx user_id w ≡ (ok access, v)
        → readers.request_error method url ≡ some text
        → send w ≡ (err (other text), v)
    unfolding google_request
    malformed access text h bad = rw h (ground arith)

    module _ (access : String) (h : auth ctx user_id w ≡ (ok access, v))
        (good : readers.request_error method url ≡ none) (x : X) where
      unanswered :
          (e : Error)
          → hc.do_request ctx (authorized access method url body) v.1 ≡ (err e, x)
          → send w ≡ (err e, (v.0, x))
      unfolding google_request
      unanswered e done = rw h (ground arith)

      answered :
          (resp : Response)
          → hc.do_request ctx (authorized access method url body) v.1 ≡ (ok resp, x)
          → google_request readers hc auth ctx user_id method url body w ≡ (
            if is_failure resp then err (status_error readers method url resp) else ok resp,
            (v.0, x),
          )
      unfolding google_request
      answered resp done = rw h (ground arith)

  respond :
      (w : T × X) (resp : Response) (w' : T × X) (access : String)
      → (auth ctx user_id w).0 ≡ ok access
      → readers.request_error method url ≡ none
      → send w ≡ (ok resp, w')
      → IsAnswered w resp w'
  respond w resp w' access given good h =
      let v = (auth ctx user_id w).1 in
      let e = with_state (auth ctx user_id w) (ok access) given in
      let out = hc.do_request ctx (authorized access method url body) v.1 in
      elim (Result-cases out.0) [
        | inr (failure, lost) ↦
            cc (h, unanswered w v access e good out.1 failure (with_state out (err failure) lost))
        | inl (r, came) ↦
            let got = answered w v access e good out.1 r (with_state out (ok r) came) in
            elim (Bool-cases (is_failure r)) [
              | inl bad ↦ ground (arith, got)
              | inr fine ↦
                  let whole : send w ≡ (ok r, (v.0, out.1)) = got ∙ rw fine in
                  let same : r ≡ resp = cc (h, whole) in
                  record {
                    access = access;
                    granted = given;
                    formed = good;
                    answered = came ∙ ap ok same;
                    accepted = rw (← same) fine;
                    world_eq = cc (h, whole);
                  }
            ]
      ]

  pub google_request_iff :
      (w : T × X) (resp : Response) (w' : T × X) → (send w ≡ (ok resp, w')) ↔ IsAnswered w resp w'
  google_request_iff w resp w' = (to, from)
    where
      to : send w ≡ (ok resp, w') → IsAnswered w resp w'
      to h = elim (Result-cases (auth ctx user_id w).0) [
        | inr (e, none_given) ↦ cc (
          h,
          refused w (auth ctx user_id w).1 e (with_state (auth ctx user_id w) (err e) none_given),
        )
        | inl (access, given) ↦ elim (Option-cases (readers.request_error method url)) [
          | inr (text, bad) ↦ cc (
            h,
            malformed w (auth ctx user_id w).1 access text
                (with_state (auth ctx user_id w) (ok access) given) bad,
          )
          | inl good ↦ respond w resp w' access given good h
        ]
      ]

      from : IsAnswered w resp w' → send w ≡ (ok resp, w')
      from a =
          let r = (auth ctx user_id w).1 in
          let out = hc.do_request ctx (authorized a.access method url body) r.1 in
          answered w r a.access (with_state (auth ctx user_id w) (ok a.access) a.granted) a.formed
            out.1 resp (with_state out (ok resp) a.answered)
          ∙ rw a.accepted (λ i. (ok resp, sym a.world_eq i))

  -- `googleJSON` succeeds only with what the reader makes of an accepted response.
  pub google_json_ok :
      {A : Type 0} (read : Body → Result A) (w : T × X) (a : A) (w' : T × X)
      → google_json readers hc auth read ctx user_id method url body w ≡ (ok a, w')
      → (resp : Response) × IsAnswered w resp w' × (read resp.body ≡ ok a)
  unfolding google_json
  google_json_ok read w a w' h = elim (Result-cases (send w).0) [
    | inr (e, failed) ↦ absurd (ground (arith, with_state (send w) (err e) failed))
    | inl (resp, came) ↦
        let e = with_state (send w) (ok resp) came in
        (resp, (google_request_iff w resp w').0 (ground (arith, e)), ground (arith, e))
  ]
