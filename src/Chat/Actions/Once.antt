-- ===== src/Chat/Actions/Once.antt =====
-- `commit` and `confirm`, repeated and in their effects on the backend.
use gen_xtaxi_ai.Common.{
  ℕ, ◌+◌, ◌≤◌, ◌<◌, String, ◌≡◌, refl, sym, ap, subst, ◌∙◌, true, false, none, some, if◌then◌else◌,
  [], ◌∷◌, ◌++◌, ◌⊎◌, inl, inr, Option-cases, Bool-cases, is_some,
}
use gen_xtaxi_ai.Common.Text.{Text, codes}
use gen_xtaxi_ai.Json.{Fields, str, obj}
use gen_xtaxi_ai.Chat.Types.{
  ToolContext, PendingAction, Method, core, Commit-cases, err, already_submitted, no_pending_action,
}
use gen_xtaxi_ai.Chat.World.{Backends, World, >>=-cases, core_request, core_result, submitted}
use gen_xtaxi_ai.Chat.Sessions.{add_message}
use gen_xtaxi_ai.Chat.Actions.{
  claim, commit, with_field, commit_call, commit_refund, perform, confirm, accepted, note, take,
  Decision, accept, decline, guard_key, confirm_key,
}
use gen_xtaxi_ai.Chat.Actions.Store.{take_keeps, taken, take-none, guard_key-ne}
use mathlib.Core.List.{append-nil}

module _ (b : Backends) where
  -- The Redis after a claim that was not refused, or a refused claim.
  claim_cases :
      (key : String) (w : World b)
      → ((claim b key w ≡ (
        true,
        record w { redis = b.redis.set (b.now w.outside) (guard_key key) submitted 600 w.redis },
      )))
        ⊎ (claim b key w ≡ (false, w))
  unfolding claim
  claim_cases key w =
      elim (Bool-cases (is_some (b.redis.get (b.now w.outside) (guard_key key) w.redis))) [
        | inl e ↦ inr (rw (e, claim) refl)
        | inr e ↦ inl (rw (e, claim) refl)
      ]

  claimed :
      (key : String) (w : World b)
      → (claim b key w).0 ≡ true
      → claim b key w ≡ (
        true,
        record w { redis = b.redis.set (b.now w.outside) (guard_key key) submitted 600 w.redis },
      )
  claimed key w free = elim (claim_cases key w) [
    | inl e ↦ e
    | inr e ↦ let h : false ≡ true = sym (ap (λ r. r.0) e) ∙ free in cc h
  ]

  refused :
      (key : String) (w : World b)
      → is_some (b.redis.get (b.now w.outside) (guard_key key) w.redis) ≡ true
      → claim b key w ≡ (false, w)
  unfolding claim
  refused key w e = rw (e, claim) refl

  perform_sends :
      (action : PendingAction) (ctx : ToolContext) (w : World b) (m : Method) (path : Text)
      (body : Fields)
      → action.commit ≡ core m path body
      → (perform b action ctx w).1.sent
        ≡ w.sent ++ commit_call b ctx action.idempotency_key m path body ∷ []
  unfolding perform core_request
  perform_sends action ctx w m path body is_core =
      let call = commit_call b ctx action.idempotency_key m path body in
      elim (Bool-cases ((core_result b (b.core_fetch call w.outside).0).is_ok)) [
        | inl e ↦ rw (is_core, e, perform) refl
        | inr e ↦ rw (is_core, e, perform) refl
      ]

  -- A commit that goes through sends the backend its one call, with the key in its body.
  commit_sends :
      (action : PendingAction) (ctx : ToolContext) (w : World b) (m : Method) (path : Text)
      (body : Fields)
      → action.commit ≡ core m path body
      → (claim b action.idempotency_key w).0 ≡ true
      → (commit b action ctx w).1.sent
        ≡ w.sent ++ commit_call b ctx action.idempotency_key m path body ∷ []
  unfolding commit
  commit_sends action ctx w m path body is_core free =
      rw (claimed action.idempotency_key w free, commit)
        (perform_sends action ctx _ m path body is_core)

  -- Within 600 seconds after the key of an action was claimed, while Redis is as the claim left it, a
  -- commit of that action is refused as already submitted and changes nothing.
  pub commit_once :
      (action : PendingAction) (ctx : ToolContext) (v w : World b)
      → w.redis ≡ (claim b action.idempotency_key v).1.redis
      → (claim b action.idempotency_key v).0 ≡ true
      → b.now v.outside ≤ b.now w.outside
      → b.now w.outside < b.now v.outside + 600
      → commit b action ctx w ≡ (err already_submitted, w)
  unfolding commit
  commit_once action ctx v w same free later soon =
      let key = action.idempotency_key in
      let mark = same ∙ ap (λ r. r.1.redis) (claimed key v free) in
      let kept =
        b.redis.get-set_self (b.now v.outside) (b.now w.outside) (guard_key key) submitted 600
          v.redis later soon in
      rw (refused key w (rw (mark, kept) refl), commit) refl

  -- A decline, of an action or of none, leaves the calls of the backend, the refunds, the counters and
  -- the tickets as they are.
  pub confirm_decline :
      (ctx : ToolContext) (cid : String) (w : World b)
      → ((confirm b ctx cid decline w).1.sent ≡ w.sent)
        × ((confirm b ctx cid decline w).1.refunds ≡ w.refunds)
        × ((confirm b ctx cid decline w).1.counters ≡ w.counters)
        × ((confirm b ctx cid decline w).1.tickets ≡ w.tickets)
  unfolding confirm add_message
  confirm_decline ctx cid w =
      let keeps = take_keeps b ctx.session_id cid w in
      let facts : ((take b ctx.session_id cid w).1.sent ≡ w.sent)
          × ((take b ctx.session_id cid w).1.refunds ≡ w.refunds)
          × ((take b ctx.session_id cid w).1.counters ≡ w.counters)
          × ((take b ctx.session_id cid w).1.tickets ≡ w.tickets) =
        (
          ap (λ v. v.sent) keeps,
          ap (λ v. v.refunds) keeps,
          ap (λ v. v.counters) keeps,
          ap (λ v. v.tickets) keeps,
        ) in
      elim (Option-cases ((take b ctx.session_id cid w).0)) [
        | inl e ↦ rw (e, confirm) facts
        | inr (a, e) ↦ rw (e, confirm) facts
      ]

  -- Noting the result changes only the messages.
  accepted_keeps :
      (a : PendingAction) (ctx : ToolContext) (w : World b)
      → (accepted b a ctx w).1
        ≡ record (commit b a ctx w).1 { messages = (accepted b a ctx w).1.messages }
  unfolding add_message
  accepted_keeps a ctx w = elim (>>=-cases {b = b} (commit b a ctx) (note b a ctx) w) [
    | inl (e, (_, h)) ↦ rw h refl
    | inr (r, (_, h)) ↦ rw h refl
  ]

  confirm_accepts :
      (ctx : ToolContext) (cid : String) (w : World b) (a : PendingAction)
      → (take b ctx.session_id cid w).0 ≡ some a
      → confirm b ctx cid accept w ≡ accepted b a ctx (take b ctx.session_id cid w).1
  unfolding confirm
  confirm_accepts ctx cid w a found = rw (found, confirm) refl

  commit_refused :
      (action : PendingAction) (ctx : ToolContext) (w : World b)
      → (claim b action.idempotency_key w).0 ≡ false
      → (commit b action ctx w).1.sent ≡ w.sent
  unfolding commit
  commit_refused action ctx w taken_key = elim (claim_cases action.idempotency_key w) [
    | inl e ↦ let h : true ≡ false = sym (ap (λ r. r.0) e) ∙ taken_key in cc h
    | inr e ↦ rw (e, commit) refl
  ]

  -- When a stored action that is a call of the backend is accepted, then, if its key was claimed already
  -- nothing is sent; and else exactly one call is: of its method, its path, with the user's token, and
  -- a body of its fields and the idempotency key.
  pub confirm-accept_sends :
      (ctx : ToolContext) (cid : String) (w : World b) (a : PendingAction) (m : Method)
      (path : Text) (body : Fields)
      → (take b ctx.session_id cid w).0 ≡ some a
      → a.commit ≡ core m path body
      → let guard =
          b.redis.get
            (b.now w.outside)
            (guard_key a.idempotency_key)
            (take b ctx.session_id cid w).1.redis in
        (confirm b ctx cid accept w).1.sent
        ≡ w.sent
          ++ (if is_some guard
              then []
              else record {
                method = m;
                path = path;
                token = ctx.user.token;
                body =
                    some (obj (with_field "idempotencyKey" (str (codes a.idempotency_key)) body));
              }
                ∷ [])
  unfolding claim
  confirm-accept_sends ctx cid w a m path body found is_core =
      let v = (take b ctx.session_id cid w).1 in
      let keeps = take_keeps b ctx.session_id cid w in
      let now : b.now v.outside ≡ b.now w.outside = ap (λ u. b.now u.outside) keeps in
      let guard = b.redis.get (b.now v.outside) (guard_key a.idempotency_key) v.redis in
      let accepted : (confirm b ctx cid accept w).1.sent ≡ (commit b a ctx v).1.sent =
        ap (λ r. r.1.sent) (confirm_accepts ctx cid w a found)
        ∙ ap (λ u. u.sent) (accepted_keeps a ctx v) in
      let sent : v.sent ≡ w.sent = ap (λ u. u.sent) keeps in
      subst
        (λ t.
          (confirm b ctx cid accept w).1.sent
          ≡ w.sent
            ++ (if is_some (b.redis.get t (guard_key a.idempotency_key) v.redis)
                then []
                else commit_call b ctx a.idempotency_key m path body ∷ []))
        now
        (elim (Bool-cases (is_some guard)) [
          | inl e ↦ rw e (
              accepted
              ∙ commit_refused a ctx v (rw (e, claim) refl)
              ∙ sent
              ∙ sym (append-nil w.sent))
          | inr e ↦ rw e (
              accepted
              ∙ commit_sends a ctx v m path body is_core (rw (e, claim) refl)
              ∙ ap (λ u. u ++ commit_call b ctx a.idempotency_key m path body ∷ []) sent)
        ])

  perform_redis :
      (a : PendingAction) (ctx : ToolContext) (w : World b) → (perform b a ctx w).1.redis ≡ w.redis
  unfolding perform commit_refund core_request
  perform_redis a ctx w = elim (Commit-cases a.commit) [
    | inl (m, p, f, e) ↦
        let call = commit_call b ctx a.idempotency_key m p f in
        elim (Bool-cases ((core_result b (b.core_fetch call w.outside).0).is_ok)) [
          | inl k ↦ rw (e, k, perform) refl
          | inr k ↦ rw (e, k, perform) refl
        ]
    | inr (r, am, t, e) ↦ rw (e, perform) refl
  ]

  -- Committing leaves the keys of the pending actions as they are.
  commit_redis :
      (a : PendingAction) (ctx : ToolContext) (w : World b) (now : ℕ) (sid cid : String)
      → b.redis.get now (confirm_key sid cid) (commit b a ctx w).1.redis
        ≡ b.redis.get now (confirm_key sid cid) w.redis
  unfolding commit
  commit_redis a ctx w now sid cid = elim (claim_cases a.idempotency_key w) [
    | inr e ↦ rw (e, commit) refl
    | inl e ↦
        rw (e, commit, perform_redis a ctx)
          (b.redis.get-set_ne (b.now w.outside) now (confirm_key sid cid)
            (guard_key a.idempotency_key) submitted 600 w.redis
            (guard_key-ne a.idempotency_key sid cid))
  ]

  confirm-none :
      (ctx : ToolContext) (cid : String) (d : Decision) (w : World b)
      → take b ctx.session_id cid w ≡ (none, w)
      → confirm b ctx cid d w ≡ (err no_pending_action, w)
  unfolding confirm
  confirm-none ctx cid d w h =
      let left : (take b ctx.session_id cid w).0 ≡ none = ap (λ r. r.0) h in
      let same : (take b ctx.session_id cid w).1 ≡ w = ap (λ r. r.1) h in
      rw (left, confirm, same) refl

  confirm_redis :
      (ctx : ToolContext) (cid : String) (d : Decision) (v : World b) (a : PendingAction) (now : ℕ)
      → (take b ctx.session_id cid v).0 ≡ some a
      → b.redis.get now (confirm_key ctx.session_id cid) (confirm b ctx cid d v).1.redis ≡ none
  unfolding confirm add_message
  confirm_redis ctx cid decline v a now found =
      rw (found, confirm) (taken b ctx.session_id cid a v now found)
  confirm_redis ctx cid accept v a now found =
      ap (λ r. b.redis.get now (confirm_key ctx.session_id cid) r.1.redis)
        (confirm_accepts ctx cid v a found)
      ∙ ap (λ u. b.redis.get now (confirm_key ctx.session_id cid) u.redis)
          (accepted_keeps a ctx (take b ctx.session_id cid v).1)
      ∙ commit_redis a ctx (take b ctx.session_id cid v).1 now ctx.session_id cid
      ∙ taken b ctx.session_id cid a v now found

  -- After an action was confirmed or declined there is none under its session and call, whatever the
  -- commit came to: a further confirm or decline, in any state with the Redis that was left, is refused
  -- and changes nothing.
  pub confirm_once :
      (ctx : ToolContext) (cid : String) (d e : Decision) (v w : World b) (a : PendingAction)
      → (take b ctx.session_id cid v).0 ≡ some a
      → w.redis ≡ (confirm b ctx cid d v).1.redis
      → confirm b ctx cid e w ≡ (err no_pending_action, w)
  unfolding confirm
  confirm_once ctx cid d e v w a found same =
      let sid = ctx.session_id in
      let gone : b.redis.get (b.now w.outside) (confirm_key sid cid) w.redis ≡ none =
        rw same (confirm_redis ctx cid d v a (b.now w.outside) found) in
      confirm-none ctx cid e w (take-none b sid cid w (rw gone refl))
