-- ===== src/Chat/Tools/Allowed.antt =====
-- The guard of `ToolExecutorService.execute`, and the effects of the tools behind it.
use gen_xtaxi_ai.Common.{
  String, str_eq, eq_iff, ◌≡◌, refl, sym, ap, subst, Bool, true, false, ◌⊎◌, inl, inr, none, some,
  List, [], ◌∷◌, ◌++◌, ◌||◌, All, find, Bool-cases, Option-cases,
}
use mathlib.Core.List.{append-nil}
use gen_xtaxi_ai.Common.Text.{codes}
use gen_xtaxi_ai.Json.{Fields, get}
use gen_xtaxi_ai.Chat.Types.{
  ToolContext, ToolSpec, get_method, unknown_tool, role_forbidden, missing_arg, ToolOutcome, result,
  action_card, Result, ok, err, Result-cases,
}
use gen_xtaxi_ai.Chat.Registry.{tool_specs, spec_by_name, includes}
use gen_xtaxi_ai.Chat.Coords.{parse_coords, is_raw}
use gen_xtaxi_ai.Chat.World.{Backends, World, CoreCall, core_request, core_result}
use gen_xtaxi_ai.Chat.Guard.{is_missing, assert_allowed, first_missing, data_of}
use gen_xtaxi_ai.Chat.Tools.{
  arg_or_empty, redact, get_call, execute, dispatch, get_fare_estimate, get_ride_status,
  get_payment_history, explain_charge, escalate, book_ride, cancel_ride, initiate_refund,
}

-- A call that asks: a GET, or the estimate of a fare.
abbrev pub IsQuestion : CoreCall → Type 0
IsQuestion c = (c.method ≡ get_method) ⊎ (c.path ≡ codes "/rides/estimate")

-- What a tool may do to the state: ask the backend, and create a ticket.
pub record OnlyAsks (b : Backends) (v w : World b) : Type 0 where
  pub questions : List CoreCall
  pub sent : w.sent ≡ v.sent ++ questions
  pub all_ask : All IsQuestion questions
  pub same_sessions : w.sessions ≡ v.sessions
  pub same_messages : w.messages ≡ v.messages
  pub same_refunds : w.refunds ≡ v.refunds
  pub same_redis : w.redis ≡ v.redis
  pub same_counters : w.counters ≡ v.counters

-- The outcome of a tool is a card exactly where the registry asks for a confirmation.
abbrev pub Agrees : Bool → String → Result ToolOutcome → Type 0
Agrees confirmed name (err e) = Unit
Agrees confirmed name (ok (result d m)) = confirmed ≡ false
Agrees confirmed name (ok (action_card c a m)) = (confirmed ≡ true) × (a.tool ≡ name)

-- What holds of a call that `assertAllowed` lets through.
pub record IsAllowed (name : String) (args : Fields) (ctx : ToolContext) : Type 0 where
  pub spec : ToolSpec
  pub registered : spec_by_name name ≡ some spec
  pub role_allowed : includes spec.allowed_roles ctx.user.role ≡ true
  pub all_given : All (λ k. is_missing (get k args) ≡ false) spec.required

module _ (b : Backends) where
  asked :
      (v : World b) (o : b.Outside) (c : CoreCall)
      → IsQuestion c
      → OnlyAsks b v (record v { outside = o; sent = v.sent ++ c ∷ [] })
  asked v o c q = record {
    questions = c ∷ [];
    sent = refl;
    all_ask = (q, tt);
    same_sessions = refl;
    same_messages = refl;
    same_refunds = refl;
    same_redis = refl;
    same_counters = refl;
  }

  silent :
      (v : World b) (o : b.Outside) (t : b.tickets.State)
      → OnlyAsks b v (record v { outside = o; tickets = t })
  silent v o t = record {
    questions = [];
    sent = sym (append-nil v.sent);
    all_ask = tt;
    same_sessions = refl;
    same_messages = refl;
    same_refunds = refl;
    same_redis = refl;
    same_counters = refl;
  }

  abbrev Behaves : ToolSpec → Type 0
  Behaves s =
      (args : Fields) (ctx : ToolContext) (w : World b)
      → OnlyAsks b w (dispatch b s.name args ctx w).1
        × Agrees s.requires_confirmation s.name (dispatch b s.name args ctx w).0

  -- The result of a tool that answers at once.
  abbrev Answers : World b → Result ToolOutcome × World b → Type 0
  Answers v r = OnlyAsks b v r.1 × ((name : String) → Agrees false name r.0)

  estimate-Answers :
      (args : Fields) (ctx : ToolContext) (w : World b) → Answers w (get_fare_estimate b args ctx w)
  unfolding get_fare_estimate core_request
  estimate-Answers args ctx w =
      elim (Bool-cases (
        is_raw (parse_coords (arg_or_empty b "pickup" args))
        || is_raw (parse_coords (arg_or_empty b "dropoff" args)))) [
          | inl e ↦ rw e (silent w w.outside w.tickets, λ n. refl)
          | inr e ↦ rw e (asked w _ _ (inr refl), λ n. refl)
        ]

  history-Answers : (ctx : ToolContext) (w : World b) → Answers w (get_payment_history b ctx w)
  unfolding get_payment_history core_request
  history-Answers ctx w =
      let r = redact b (
        data_of
          (core_result b (b.core_fetch (get_call b ctx (codes "/wallet/history")) w.outside).0)) in
      elim (Result-cases r) [
        | inl (x, e) ↦ rw e (asked w _ _ (inl refl), λ n. refl)
        | inr (x, e) ↦ rw e (asked w _ _ (inl refl), λ n. tt)
      ]

  tools-Behaves : All Behaves tool_specs
  unfolding dispatch get_ride_status explain_charge escalate book_ride cancel_ride initiate_refund
      core_request
  tools-Behaves = (
    λ args ctx w. let (a, g) = estimate-Answers args ctx w in (a, g "get_fare_estimate"),
    (
      λ args ctx w. (asked w _ _ (inl refl), refl),
      (
        λ args ctx w. (asked w _ _ (inr refl), (refl, refl)),
        (
          λ args ctx w. (asked w _ _ (inl refl), (refl, refl)),
          (
            λ args ctx w. let (a, g) = history-Answers ctx w in (a, g "get_payment_history"),
            (
              λ args ctx w. (silent w _ w.tickets, (refl, refl)),
              (
                λ args ctx w. (asked w _ _ (inl refl), refl),
                (λ args ctx w. (silent w w.outside _, refl), tt),
              ),
            ),
          ),
        ),
      ),
    ),
  )

  find-Behaves :
      (name : String) (s : ToolSpec) (specs : List ToolSpec)
      → All Behaves specs
      → find (λ s. str_eq s.name name) specs ≡ some s
      → Behaves s × (s.name ≡ name)
  find-Behaves name s [] _ h = cc h
  find-Behaves name s (x ∷ xs) (p, ps) h = elim (Bool-cases (str_eq x.name name)) [
    | inl e ↦
        let same : some x ≡ some s = rw e at h in
        let eq : x ≡ s = cc same in
        (subst Behaves eq p, cc (ap (λ t. t.name) {x = x} {y = s} eq, (eq_iff x.name name).0 e))
    | inr e ↦ find-Behaves name s xs ps (rw e at h)
  ]

  spec-Behaves :
      (name : String) (s : ToolSpec) → spec_by_name name ≡ some s → Behaves s × (s.name ≡ name)
  unfolding spec_by_name
  spec-Behaves name s h = find-Behaves name s tool_specs tools-Behaves h

  first_missing-none :
      (ks : List String) (args : Fields)
      → first_missing ks args ≡ none
      → All (λ k. is_missing (get k args) ≡ false) ks
  unfolding first_missing
  first_missing-none [] args h = tt
  first_missing-none (k ∷ ks) args h = elim (Bool-cases (is_missing (get k args))) [
    | inl e ↦ let h' : some k ≡ none = rw e at h in cc h'
    | inr e ↦ (e, first_missing-none ks args (rw e at h))
  ]

  assert_allowed_lem :
      (name : String) (args : Fields) (ctx : ToolContext) (u : Unit)
      → assert_allowed name args ctx ≡ ok u
      → IsAllowed name args ctx
  unfolding assert_allowed
  assert_allowed_lem name args ctx u h = elim (Option-cases (spec_by_name name)) [
    | inl e ↦ let h' : err (unknown_tool name) ≡ ok u = rw e at h in cc h'
    | inr (s, e) ↦ elim (Bool-cases (includes s.allowed_roles ctx.user.role)) [
      | inr denied ↦
          let h' : err (role_forbidden ctx.user.role name) ≡ ok u = rw (e, denied) at h in cc h'
      | inl passed ↦ elim (Option-cases (first_missing s.required args)) [
        | inl given ↦ record {
          spec = s;
          registered = e;
          role_allowed = passed;
          all_given = first_missing-none s.required args given;
        }
        | inr (k, lack) ↦
            let h' : err (missing_arg name k) ≡ ok u = rw (e, passed, lack) at h in cc h'
      ]
    ]
  ]

  -- Every call of a tool, allowed or not, leaves the sessions, the messages, the refunds, Redis and the
  -- counters as they are, and sends the backend only GET requests and estimates.
  pub execute-OnlyAsks :
      (name : String) (args : Fields) (ctx : ToolContext) (w : World b)
      → OnlyAsks b w (execute b name args ctx w).1
  unfolding execute
  execute-OnlyAsks name args ctx w = elim (Result-cases (assert_allowed name args ctx)) [
    | inr (e, denied) ↦ rw (denied, execute) (silent w w.outside w.tickets)
    | inl (u, passed) ↦
        let a = assert_allowed_lem name args ctx u passed in
        let (behaves, same) = spec-Behaves name a.spec a.registered in
        rw (passed, execute)
          (subst (λ n. OnlyAsks b w (dispatch b n args ctx w).1) same (behaves args ctx w).0)
  ]

  -- A tool that gives an outcome is in the registry, its role may call it, each required argument is
  -- given, and the outcome is a card that proposes this very tool exactly where the registry asks for
  -- a confirmation.
  pub execute-IsAllowed :
      (name : String) (args : Fields) (ctx : ToolContext) (w : World b) (o : ToolOutcome)
      → (execute b name args ctx w).0 ≡ ok o
      → (a : IsAllowed name args ctx) × Agrees a.spec.requires_confirmation name (ok o)
  unfolding execute
  execute-IsAllowed name args ctx w o h = elim (Result-cases (assert_allowed name args ctx)) [
    | inr (e, denied) ↦ let h' : err e ≡ ok o = rw (denied, execute) at h in cc h'
    | inl (u, passed) ↦
        let a = assert_allowed_lem name args ctx u passed in
        let (behaves, same) = spec-Behaves name a.spec a.registered in
        let h' : (dispatch b name args ctx w).0 ≡ ok o = rw (passed, execute) at h in
        let agrees : Agrees a.spec.requires_confirmation name (dispatch b name args ctx w).0 =
          subst (λ n. Agrees a.spec.requires_confirmation n (dispatch b n args ctx w).0) same
            (behaves args ctx w).1 in
        (a, subst (Agrees a.spec.requires_confirmation name) h' agrees)
  ]
