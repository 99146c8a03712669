-- ===== src/Campaign/Life/Reached.antt =====
-- SaucepanServer/task-server/cmd/apiserver/campaigns.go with AllowsAssign of
-- shared/campaign/lifecycle.go: whatever requests come in whatever order.
use saucepan.Common.{String, Option, List, [], string_eq, All, nat_eq}
use saucepan.Common.Float.{Float}
use saucepan.Pier.Address.{Url}
use saucepan.Campaign.Publish.{Json, World}
use saucepan.Campaign.Life.{Transition, State}
use saucepan.Campaign.Life.Safe.{KeepsPack, AllSafe, IsExpanded, Allowed}

module _ (fl : Float) (fixed4 : fl.F → String) (parse_request_uri : String → Option Url)
    (json : Json fl) (keeps_pack : KeepsPack fl fixed4 parse_request_uri json) where
  abbrev Permits : World fl → World fl → Type 0
  Permits = Allowed fl fixed4 parse_request_uri json

  -- Every campaign is safe, and a transition that is waiting to be written is for one that was
  -- expanded.
  abbrev IsSafeWith : World fl → List Transition → Type 0
  IsSafeWith w ts =
      AllSafe fl fixed4 parse_request_uri json w
      × All (λ (t : Transition). IsExpanded fl fixed4 parse_request_uri json w t.campaign_id) ts

  abbrev IsSafeState : State fl → Type 0
  IsSafeState s = IsSafeWith s.world s.checked

  abbrev no_campaigns : State fl
  no_campaigns = record { world = record { campaigns = []; tasks = []; next_id = 1 }; checked = [] }
