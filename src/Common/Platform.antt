-- ===== src/Common/Platform.antt =====
-- crates/rdesk_common/src/platform.rs: the platforms and their names.
use rdesk.Prelude.{Text, codes}

pub data Platform : Type 0 where
  windows mac_os linux android ios : Platform

unfoldable pub as_str : Platform → Text
as_str windows = codes "Windows"
as_str mac_os = codes "macOS"
as_str linux = codes "Linux"
as_str android = codes "Android"
as_str ios = codes "iOS"

-- The platform that the build is for is a parameter.
unfoldable pub platform_name : Platform → Text
unfolding as_str
platform_name current = as_str current
