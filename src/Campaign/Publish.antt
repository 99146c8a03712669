-- ===== src/Campaign/Publish.antt =====
-- SaucepanServer/task-server/cmd/apiserver/campaigns.go and campaigns_store.go, assertCampaignOwner
-- of inbox.go, maybeCompleteCampaign of budget.go and shared/campaign/lifecycle.go: the handlers
-- that change a campaign. A transaction that fails leaves the rows as they were. Columns that no
-- handler here reads back (points_multiplier, comp_stars, created_at) are left out.
mod Chain
mod Store
mod Create
mod Launch
mod Change
unfoldable pub use Chain.*
unfoldable pub use Store.*
unfoldable pub use Create.*
unfoldable pub use Launch.*
unfoldable pub use Change.*
