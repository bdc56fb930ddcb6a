-- ===== src/Chat/Http/Laws.antt =====
-- The handlers of chat.controller.ts for users who do not own a session.
use gen_xtaxi_ai.Common.{
  ◌≡◌, ◌≢◌, refl, ap, String, str_eq, eq_iff, Option, List, [], ◌∷◌, find, All, inl, inr,
  Bool-cases, if◌then◌else◌,
}
use gen_xtaxi_ai.Common.Text.{Text}
use gen_xtaxi_ai.Chat.Types.{ChatUser, Session}
use gen_xtaxi_ai.Chat.World.{Backends, World}
use gen_xtaxi_ai.Chat.Sessions.{not_owned, malformed_id, owned_by, get}
use gen_xtaxi_ai.Chat.Actions.{Decision}
use gen_xtaxi_ai.Chat.Http.{
  Reply, not_found, cast_error, message, get_transcript, confirm_action, escalate_session,
}

-- No session of the user's has the identifier.
abbrev pub OwnsNone : String → String → List (String × Session) → Type 0
OwnsNone id user_id sessions = All (λ e. e.0 ≡ id → e.1.user_id ≢ user_id) sessions

owned_by-none :
    (id user_id : String) (sessions : List (String × Session))
    → OwnsNone id user_id sessions
    → owned_by user_id (find (λ e. str_eq e.0 id) sessions) ≡ not_owned
owned_by-none id user_id [] h = refl
owned_by-none id user_id ((key, s) ∷ more) (h, hs) = elim (Bool-cases (str_eq key id)) [
  | inr e ↦ rw e (owned_by-none id user_id more hs)
  | inl e ↦ rw e (elim (Bool-cases (str_eq s.user_id user_id)) [
    | inl own ↦ absurd (h ((eq_iff key id).0 e) ((eq_iff s.user_id user_id).0 own))
    | inr own ↦ rw own refl
  ])
]

module _ (b : Backends) where
  -- Not found, or, where the identifier is malformed, an error.
  abbrev pub refusal : {A : Type 0} → String → Reply A
  refusal id = if b.is_object_id id then not_found else cast_error

  get-OwnsNone :
      (id user_id : String) (w : World b)
      → OwnsNone id user_id (b.sessions.docs w.sessions)
      → get b id user_id w ≡ (if b.is_object_id id then not_owned else malformed_id)
  unfolding get
  get-OwnsNone id user_id w h =
      ap (λ l. if b.is_object_id id then l else malformed_id)
        (owned_by-none id user_id (b.sessions.docs w.sessions) h)

  -- Whoever owns no session of an identifier, whether there is one of another user or none, is refused by
  -- each handler of a session, and nothing changes: it is not found, or an error if the identifier is
  -- malformed.
  pub handlers_refuse :
      (id call_id : String) (content summary : Text) (priority : Option Text) (d : Decision)
      (u : ChatUser) (w : World b)
      → OwnsNone id u.user_id (b.sessions.docs w.sessions)
      → (message b id content u w ≡ (refusal id, w))
        × (get_transcript b id u w ≡ (refusal id, w))
        × (confirm_action b id call_id d u w ≡ (refusal id, w))
        × (escalate_session b id summary priority u w ≡ (refusal id, w))
  unfolding message get_transcript confirm_action escalate_session
  handlers_refuse id call_id content summary priority d u w none_owned =
      let h = get-OwnsNone id u.user_id w none_owned in
      elim (Bool-cases (b.is_object_id id)) [
        | inl e ↦
            let k : get b id u.user_id w ≡ not_owned = rw e at h in
            rw (e, k, message, get_transcript, confirm_action, escalate_session)
              (refl, refl, refl, refl)
        | inr e ↦
            let k : get b id u.user_id w ≡ malformed_id = rw e at h in
            rw (e, k, message, get_transcript, confirm_action, escalate_session)
              (refl, refl, refl, refl)
      ]
