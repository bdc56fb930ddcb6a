-- ===== src/Cards/Laws.antt =====
-- The card pattern on a card number and on a time in milliseconds.
use gen_xtaxi_ai.Common.{◌≡◌, refl}
use gen_xtaxi_ai.Common.Text.{codes}
use gen_xtaxi_ai.Cards.{replace_cards}

pan :
    replace_cards (codes "pay 4111 1111 1111 1111 now, 12345")
    ≡ codes "pay [REDACTED_CARD]now, 12345"
unfolding replace_cards codes
pan = refl

-- The time of a payment, in milliseconds, is taken for a card number.
time_in_millis : replace_cards (codes "\"at\":1783382400000,") ≡ codes "\"at\":[REDACTED_CARD],"
unfolding replace_cards codes
time_in_millis = refl
