-- ===== src/Chat/Actions/Queue.antt =====
-- The effects and the answer of `commitRefund`.
use gen_xtaxi_ai.Common.{
  ℕ, suc, ◌≤◌, String, eq_iff, ◌≡◌, refl, ◌∙◌, true, Option, some, ◌↔◌, arith, ltb,
}
use gen_xtaxi_ai.Common.Text.{Text}
use gen_xtaxi_ai.Json.{Json, Fields, bool, obj, get}
use gen_xtaxi_ai.Chat.Types.{ToolContext, Amount}
use gen_xtaxi_ai.Chat.World.{Backends, World}
use gen_xtaxi_ai.Chat.Actions.{commit_refund, day_key}

anomaly_iff :
    (n : ℕ) → (◌≡◌ {A = Option Json} (some (bool (ltb 3 (suc n)))) (some (bool true))) ↔ (3 ≤ n)
anomaly_iff n =
    (λ h. let k : ltb 3 (suc n) ≡ true = cc h in above n k, λ h. rw (above_true n h) refl)
  where
    above : (n : ℕ) → ltb 3 (suc n) ≡ true → 3 ≤ n
    above n k = ground arith

    above_true : (n : ℕ) → 3 ≤ n → ltb 3 (suc n) ≡ true
    above_true n h = ground arith

module _ (b : Backends) where
  incr_one :
      (day : String) (s : b.counters.State)
      → b.counters.value day (b.counters.incrby day 1 s) ≡ suc (b.counters.value day s)
  incr_one day s = b.counters.value-incrby day day 1 s ∙ rw ((eq_iff day day).1 refl) (omega arith)

  -- The answer flags an anomaly exactly from the user's fourth request of the day on.
  pub commit_refund_anomaly :
      (ride : Text) (amount : Amount) (reason : Text) (ctx : ToolContext) (w : World b)
      → (fields : Fields) × ((commit_refund b ride amount reason ctx w).0 ≡ obj fields)
        × ((get "anomaly" fields ≡ some (bool true))
            ↔ (3 ≤ b.counters.value (day_key ctx.user.user_id (b.today w.outside)) w.counters))
  unfolding commit_refund get
  commit_refund_anomaly ride amount reason ctx w =
      let day = day_key ctx.user.user_id (b.today w.outside) in
      let one = incr_one day w.counters in
      (_, refl, rw one (anomaly_iff (b.counters.value day w.counters)))
