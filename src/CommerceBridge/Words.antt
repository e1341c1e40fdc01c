-- ===== src/CommerceBridge/Words.antt =====
-- The words of server/apps/commerce_bridge: keys, header names and values, as code points.
use assen_platform.Common.{[], ◌∷◌, Text}

-- `event_id`
abbrev pub event_id_key : Text
event_id_key = 101 ∷ 118 ∷ 101 ∷ 110 ∷ 116 ∷ 95 ∷ 105 ∷ 100 ∷ []

-- `event_type`
abbrev pub event_type_key : Text
event_type_key = 101 ∷ 118 ∷ 101 ∷ 110 ∷ 116 ∷ 95 ∷ 116 ∷ 121 ∷ 112 ∷ 101 ∷ []

-- `external_order_id`
abbrev pub external_order_id_key : Text
external_order_id_key =
    101 ∷ 120 ∷ 116 ∷ 101 ∷ 114 ∷ 110 ∷ 97 ∷ 108 ∷ 95 ∷ 111 ∷ 114 ∷ 100 ∷ 101 ∷ 114 ∷ 95 ∷ 105 ∷ 100
    ∷ []

-- `creator_ref`
abbrev pub creator_ref_key : Text
creator_ref_key = 99 ∷ 114 ∷ 101 ∷ 97 ∷ 116 ∷ 111 ∷ 114 ∷ 95 ∷ 114 ∷ 101 ∷ 102 ∷ []

-- `buyer_ref`
abbrev pub buyer_ref_key : Text
buyer_ref_key = 98 ∷ 117 ∷ 121 ∷ 101 ∷ 114 ∷ 95 ∷ 114 ∷ 101 ∷ 102 ∷ []

-- `currency`
abbrev pub currency_key : Text
currency_key = 99 ∷ 117 ∷ 114 ∷ 114 ∷ 101 ∷ 110 ∷ 99 ∷ 121 ∷ []

-- `KRW`
abbrev pub krw : Text
krw = 75 ∷ 82 ∷ 87 ∷ []

-- `x-assen-signature`
abbrev pub signature_header : Text
signature_header =
    120 ∷ 45 ∷ 97 ∷ 115 ∷ 115 ∷ 101 ∷ 110 ∷ 45 ∷ 115 ∷ 105 ∷ 103 ∷ 110 ∷ 97 ∷ 116 ∷ 117 ∷ 114 ∷ 101
    ∷ []

-- `generic`
abbrev pub generic_word : Text
generic_word = 103 ∷ 101 ∷ 110 ∷ 101 ∷ 114 ∷ 105 ∷ 99 ∷ []

-- `cafe24`
abbrev pub cafe24_word : Text
cafe24_word = 99 ∷ 97 ∷ 102 ∷ 101 ∷ 50 ∷ 52 ∷ []

-- `imweb`
abbrev pub imweb_word : Text
imweb_word = 105 ∷ 109 ∷ 119 ∷ 101 ∷ 98 ∷ []

-- `order_paid`
abbrev pub order_paid : Text
order_paid = 111 ∷ 114 ∷ 100 ∷ 101 ∷ 114 ∷ 95 ∷ 112 ∷ 97 ∷ 105 ∷ 100 ∷ []

-- `order_shipped`
abbrev pub order_shipped : Text
order_shipped = 111 ∷ 114 ∷ 100 ∷ 101 ∷ 114 ∷ 95 ∷ 115 ∷ 104 ∷ 105 ∷ 112 ∷ 112 ∷ 101 ∷ 100 ∷ []

-- `order_cancelled`
abbrev pub order_cancelled : Text
order_cancelled =
    111 ∷ 114 ∷ 100 ∷ 101 ∷ 114 ∷ 95 ∷ 99 ∷ 97 ∷ 110 ∷ 99 ∷ 101 ∷ 108 ∷ 108 ∷ 101 ∷ 100 ∷ []

-- `order_refunded`
abbrev pub order_refunded : Text
order_refunded =
    111 ∷ 114 ∷ 100 ∷ 101 ∷ 114 ∷ 95 ∷ 114 ∷ 101 ∷ 102 ∷ 117 ∷ 110 ∷ 100 ∷ 101 ∷ 100 ∷ []
