-- ===== src/Client/Sessions.antt =====
-- `sessionPhase`, by what it depends on.
use google_photos_picker.Base.{
  ℕ, ◌≤◌, ◌≡◌, ◌≢◌, ◌↔◌, true, false, some, eq_iff, Option-cases, Bool-cases, inl, inr, arith,
}
use google_photos_picker.System.{System}
use google_photos_picker.OAuth.{Oauth2}
use google_photos_picker.Picker.{Readers, PickerSession as SessionResource}
use google_photos_picker.Client.{Client, SessionPhase, session_phase}

module _ {T J X : Type 0} (sys : System X) (lib : Oauth2 X) (readers : Readers) (c : Client T J X)
    (now : ℕ) (s : SessionResource) where
  -- The session names a deadline that can be read, and it is not after now.
  pub record IsPastDeadline : Type 0 where
    pub deadline : ℕ
    pub named : s.expire_time ≢ ""
    pub read : readers.rfc3339 s.expire_time ≡ some deadline
    pub reached : deadline ≤ now

  abbrev phase : SessionPhase
  phase = session_phase sys lib readers c now s

  phase_set : s.media_items_set ≡ true → phase ≡ SessionPhase.ready
  unfolding session_phase
  phase_set h = ground arith

  phase_expired : s.media_items_set ≡ false → phase ≡ SessionPhase.expired → IsPastDeadline
  unfolding session_phase
  phase_expired h e = elim (Option-cases (readers.rfc3339 s.expire_time)) [
    | inl unread ↦ absurd (ground (arith, unread))
    | inr (deadline, read) ↦ record {
      deadline = deadline;
      named = λ empty. ground (arith, eq_iff s.expire_time "");
      read = read;
      reached = ground arith;
    }
  ]

  phase_past : s.media_items_set ≡ false → IsPastDeadline → phase ≡ SessionPhase.expired
  unfolding session_phase
  phase_past h p = ground (arith, p.read, p.reached, eq_iff s.expire_time "")

  phase-ne : s.media_items_set ≡ false → phase ≢ SessionPhase.ready
  unfolding session_phase
  phase-ne h e = ground arith

  -- A session is reported ready exactly if its picks are set, past its deadline or not; and expired exactly
  -- if they are not set and it names a deadline that can be read and has come. With no deadline, or
  -- one that cannot be read, it stays pending until the picks are set.
  pub session_phase_iff :
      ((phase ≡ SessionPhase.ready) ↔ (s.media_items_set ≡ true))
      × ((phase ≡ SessionPhase.expired) ↔ ((s.media_items_set ≡ false) × IsPastDeadline))
  session_phase_iff = elim (Bool-cases s.media_items_set) [
    | inl set ↦ ((λ _. set, phase_set), (λ e. cc (e, phase_set set), λ (unset, _). cc (set, unset)))
    | inr unset ↦ (
      (λ e. absurd (phase-ne unset e), λ set. cc (set, unset)),
      (λ e. (unset, phase_expired unset e), λ (_, p). phase_past unset p),
    )
  ]
