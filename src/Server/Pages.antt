-- ===== src/Server/Pages.antt =====
-- The page that `handle_view_all_page` asks for.
use dcn1003_group.Base.{◌≤◌, ◌≡◌, [], ◌∷◌, arith}
use dcn1003_group.Base.Int.{ℤ, pos_part, neg_part}
use dcn1003_group.Number.{to_string}
use dcn1003_group.Number.RoundTrip.{IsInt, stoi-to_string}
use dcn1003_group.Dispatch.{Payload}
use dcn1003_group.Server.Query.{page_of}

-- Whatever the payload, the offset is not negative and the limit lies between 1 and 1000.
pub page_of_bounds :
    (p : Payload)
    → (neg_part (page_of p).0 ≡ 0)
      × (neg_part (page_of p).1 ≡ 0)
      × (1 ≤ pos_part (page_of p).1)
      × (pos_part (page_of p).1 ≤ 1000)
unfolding page_of
page_of_bounds p = ground arith

-- What the client sends for an offset that is not negative and a limit between 1 and 1000 is the page
-- that the server takes.
pub page_of-to_string :
    (offset limit : ℤ)
    → IsInt offset
    → neg_part offset ≡ 0
    → neg_part limit ≡ 0
    → 1 ≤ pos_part limit
    → pos_part limit ≤ 1000
    → page_of (to_string offset ∷ to_string limit ∷ []) ≡ (offset, limit)
unfolding page_of
page_of-to_string offset limit h o l low high =
    ground (arith, stoi-to_string offset h, stoi-to_string limit (omega arith))
