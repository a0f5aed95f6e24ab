-- ===== src/Links.antt =====
-- The registration links of src/common/invite/build-register-links.util.ts, and the methods of text
-- that stand on the tables of Unicode.
use sidequest_demo_be.Common.{[], ◌∷◌, ◌++◌, ◌==◌, if◌then◌else◌}
use sidequest_demo_be.Common.Text.{Text, codes}

-- `toLowerCase`, `toUpperCase` and `encodeURIComponent` of the platform.
pub record TextMethods : Type 0 where
  pub to_lower_case : Text → Text
  pub to_upper_case : Text → Text
  pub encode_uri_component : Text → Text

-- `LOWER` and `BTRIM` of PostgreSQL
pub record SqlText : Type 0 where
  pub lower : Text → Text
  pub btrim : Text → Text

-- `replace(/\/$/, '')`
unfoldable pub strip_slash : Text → Text
strip_slash [] = []
strip_slash (c ∷ []) = if c == 47 then [] else c ∷ []
strip_slash (c ∷ d ∷ rest) = c ∷ strip_slash (d ∷ rest)

module _ (methods : TextMethods) where
  unfoldable pub build_personal_register_ref_link : Text → Text → Text
  unfolding strip_slash
  build_personal_register_ref_link frontend_base_url username =
      strip_slash frontend_base_url
      ++ codes "/register?ref="
      ++ methods.encode_uri_component username

  unfoldable pub build_invite_token_register_link : Text → Text → Text
  unfolding strip_slash
  build_invite_token_register_link frontend_base_url token =
      strip_slash frontend_base_url
      ++ codes "/register?invite="
      ++ methods.encode_uri_component token
