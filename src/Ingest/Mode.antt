-- ===== src/Ingest/Mode.antt =====
-- The ingestion modes and their names (types/ingestion.rs).
use project_loom.Common.{◌≡◌, refl, String, if◌then◌else◌}
use text.Mathlib.Text.{◌==◌ as str_eq}
use project_loom.Common.Result.{Result, ok, err}
use project_loom.Online.{IngestionMode, user_authored_seed, vendor_import, live_mcp_capture}

unfoldable pub as_str : IngestionMode → String
as_str user_authored_seed = "user_authored_seed"
as_str vendor_import = "vendor_import"
as_str live_mcp_capture = "live_mcp_capture"

-- The error is the text itself, which the message of `ParseIngestionModeError` quotes.
unfoldable pub from_str : String → Result String IngestionMode
from_str s =
    if str_eq s "user_authored_seed"
    then ok user_authored_seed
    else if str_eq s "vendor_import"
    then ok vendor_import
    else if str_eq s "live_mcp_capture"
    then ok live_mcp_capture
    else err s

-- A mode is read back from its name.
pub from_str-as_str : (m : IngestionMode) → from_str (as_str m) ≡ ok m
unfolding from_str as_str
from_str-as_str user_authored_seed = refl
from_str-as_str vendor_import = refl
from_str-as_str live_mcp_capture = refl
