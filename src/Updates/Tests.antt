-- ===== src/Updates/Tests.antt =====
-- app/client_updates.py: two releases for one platform.
use opsark_admin.Common.{true, none, [], ◌∷◌}
use opsark_admin.Updates.{Version, linux, x86_64, ClientRelease, Updates, client_info}
use opsark_admin.Updates.Latest.{IsOffer, client_info-IsOffer}

abbrev current : Version
current = record { major = 1; minor = 2; patch = 0 }

abbrev old : ClientRelease
old = record { platform = linux; arch = x86_64; version = current; enabled = true; created_at = 1 }

abbrev newer : ClientRelease
newer = record old { version = record current { minor = 10 } }

abbrev db : Updates
db = record { policy_row = none; releases = (1, newer) ∷ (2, old) ∷ [] }

client_info-IsOffer_example :
    IsOffer linux x86_64 current db.releases (client_info linux x86_64 current db).offered
client_info-IsOffer_example = client_info-IsOffer linux x86_64 current db
