-- ===== src/Safety.antt =====
-- server/apps/safety/models.py and server/apps/safety/services.py: the blocks of accounts, as the other
-- apps read them.
pub mod Uploads
pub mod Reports
pub mod Takedowns
pub mod Held
pub mod Changes
mod Filing
pub mod Moderation
mod Tests
use assen_platform.Common.{ℕ, ◌==◌, leb, Bool, true, false, not, ◌&&◌, ◌||◌, List}
use assen_platform.Common.Table.{exists}

pub data BlockScope : Type 0 where
  reservation fandom_feature store_visit all : BlockScope

pub record UserBlock : Type 0 where
  pub target : ℕ
  pub block_scope : BlockScope
  pub is_active : Bool  -- the status: active or lifted
  pub is_risk_flag : Bool
  pub effective_from : ℕ

abbrev same_scope : BlockScope → BlockScope → Bool
same_scope reservation reservation = true
same_scope fandom_feature fandom_feature = true
same_scope store_visit store_visit = true
same_scope all all = true
same_scope _ _ = false

-- `has_active_block` for one scope; the scope `all` covers every surface.
unfoldable pub has_active_block : ℕ → ℕ → BlockScope → List UserBlock → Bool
has_active_block now target scope blocks =
    exists
      (λ b.
        (b.target == target)
        && b.is_active
        && not b.is_risk_flag
        && leb b.effective_from now
        && (same_scope b.block_scope scope || same_scope b.block_scope BlockScope.all))
      blocks
