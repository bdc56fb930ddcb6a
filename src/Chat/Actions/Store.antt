-- ===== src/Chat/Actions/Store.antt =====
-- The keys and the entries of `ConfirmationStore`.
use gen_xtaxi_ai.Common.{
  ℕ, ◌+◌, ◌≤◌, ◌<◌, String, ◌≡◌, ◌≢◌, refl, sym, ap, ◌∙◌, none, some, inl, inr, Option-cases, arith,
}
use gen_xtaxi_ai.Chat.Types.{PendingAction}
use gen_xtaxi_ai.Chat.World.{Backends, World, pending}
use gen_xtaxi_ai.Chat.Actions.{save, as_stored, take, confirm_key, guard_key, pending_of}
use Prim.Native.Char.{code}
use Prim.Native.String.{◌++◌ as str_append}
use text.Mathlib.TextLemmas.{
  head-eq_of_cons-eq, cons-append, append_cancel_left, append_cancel_right,
}

pub guard_key-ne : (key sid cid : String) → confirm_key sid cid ≢ guard_key key
guard_key-ne key sid cid h =
    let heads = head-eq_of_cons-eq (
      sym (cons-append "c" "onfirm:" (str_append sid (str_append ":" cid)))
      ∙ h
      ∙ cons-append "i" "dem:" key) in
    let codes_eq : code "c" ≡ code "i" = ap code heads in omega (arith, codes_eq)

-- The keys of one session differ where the calls do, and those of one call where the sessions do.
pub confirm_key-inj_call : (sid c d : String) → confirm_key sid c ≡ confirm_key sid d → c ≡ d
confirm_key-inj_call sid c d h = append_cancel_left ":" c d (
    append_cancel_left sid (str_append ":" c) (str_append ":" d) (
      append_cancel_left "confirm:" (str_append sid (str_append ":" c))
        (str_append sid (str_append ":" d)) h))

pub confirm_key-inj_session : (s t c : String) → confirm_key s c ≡ confirm_key t c → s ≡ t
confirm_key-inj_session s t c h = append_cancel_right s t (str_append ":" c) (
    append_cancel_left "confirm:" (str_append s (str_append ":" c))
      (str_append t (str_append ":" c)) h)

module _ (b : Backends) where
  pub take_lem :
      (sid cid : String) (w : World b)
      → (take b sid cid w).0
        ≡ pending_of (b.redis.get (b.now w.outside) (confirm_key sid cid) w.redis)
  unfolding take
  take_lem sid cid w =
      elim (Option-cases
        (pending_of (b.redis.get (b.now w.outside) (confirm_key sid cid) w.redis))) [
          | inl e ↦ rw (e, take) refl
          | inr (a, e) ↦ rw (e, take) refl
        ]

  -- Taking changes nothing but Redis.
  pub take_keeps :
      (sid cid : String) (w : World b)
      → (take b sid cid w).1 ≡ record w { redis = (take b sid cid w).1.redis }
  unfolding take
  take_keeps sid cid w =
      elim (Option-cases
        (pending_of (b.redis.get (b.now w.outside) (confirm_key sid cid) w.redis))) [
          | inl e ↦ rw (e, take) refl
          | inr (a, e) ↦ rw (e, take) refl
        ]

  pub take-none :
      (sid cid : String) (w : World b)
      → pending_of (b.redis.get (b.now w.outside) (confirm_key sid cid) w.redis) ≡ none
      → take b sid cid w ≡ (none, w)
  unfolding take
  take-none sid cid w h = rw (h, take) refl

  pub take-some :
      (sid cid : String) (w : World b) (a : PendingAction)
      → pending_of (b.redis.get (b.now w.outside) (confirm_key sid cid) w.redis) ≡ some a
      → take b sid cid w ≡ (some a, record w { redis = b.redis.del (confirm_key sid cid) w.redis })
  unfolding take
  take-some sid cid w a h = rw (h, take) refl

  -- Within its time to live, in whatever state has kept the Redis of the save, an action is taken as
  -- JSON has kept it.
  pub take-save :
      (sid cid : String) (a : PendingAction) (v w : World b)
      → w.redis ≡ (save b sid cid a v).redis
      → b.now v.outside ≤ b.now w.outside
      → b.now w.outside < b.now v.outside + b.confirm_ttl
      → (take b sid cid w).0 ≡ some (as_stored a)
  unfolding save
  take-save sid cid a v w same later alive =
      let kept =
        b.redis.get-set_self (b.now v.outside) (b.now w.outside) (confirm_key sid cid)
          (pending (as_stored a)) b.confirm_ttl v.redis later alive in
      ap (λ r. r.0) (take-some sid cid w (as_stored a) (rw same (rw kept refl)))

  -- An action of another session or another call is not taken by it.
  pub take-save_ne :
      (sid cid sid' cid' : String) (a : PendingAction) (v w : World b)
      → w.redis ≡ (save b sid cid a v).redis
      → confirm_key sid' cid' ≢ confirm_key sid cid
      → (take b sid' cid' w).0 ≡ (take b sid' cid' (record w { redis = v.redis })).0
  unfolding save take
  take-save_ne sid cid sid' cid' a v w same other =
      let kept =
        b.redis.get-set_ne (b.now v.outside) (b.now w.outside) (confirm_key sid' cid')
          (confirm_key sid cid) (pending (as_stored a)) b.confirm_ttl v.redis other in
      take_lem sid' cid' w
      ∙ rw (same, kept) (sym (take_lem sid' cid' (record w { redis = v.redis })))

  -- Once taken, the action is not in Redis at any time.
  pub taken :
      (sid cid : String) (a : PendingAction) (v : World b) (now : ℕ)
      → (take b sid cid v).0 ≡ some a
      → b.redis.get now (confirm_key sid cid) (take b sid cid v).1.redis ≡ none
  taken sid cid a v now h =
      let key = confirm_key sid cid in
      let left : (take b sid cid v).1.redis ≡ b.redis.del key v.redis =
        ap (λ r. r.1.redis) (take-some sid cid v a (sym (take_lem sid cid v) ∙ h)) in
      rw left (b.redis.get-del_self now key v.redis)
