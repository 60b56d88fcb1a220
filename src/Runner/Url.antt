-- ===== src/Runner/Url.antt =====
-- lib/bombadil/src/url.rs: whether a page is one of the tested site. Of a URL, the code sees the host
-- and the port.
use bombadil.Common.{ℕ, Bool, true, false, ◌&&◌, Option, none, some, ◌==◌}

pub record Url (Host : Type 0) : Type 0 where
  pub host : Option Host
  pub port : Option ℕ

module _ {A : Type 0} (same : A → A → Bool) where
  -- `value.is_none() || value == other`.
  abbrev pub is_none_or_same : Option A → Option A → Bool
  is_none_or_same none other = true
  is_none_or_same (some a) none = false
  is_none_or_same (some a) (some b) = same a b

unfoldable pub is_within_domain :
    {Host : Type 0} → (Host → Host → Bool) → Url Host → Url Host → Bool
is_within_domain same_host uri domain =
    is_none_or_same same_host uri.host domain.host && is_none_or_same ◌==◌ uri.port domain.port
