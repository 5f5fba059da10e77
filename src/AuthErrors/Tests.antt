-- ===== src/AuthErrors/Tests.antt =====
-- ui/src/lib/authErrors.ts at two messages.
use secure_collab_app.Prelude.{◌≡◌, refl, true, false}
use secure_collab_app.AuthErrors.{Runtime, includes, is_session_rejected}

abbrev runtime : Runtime
runtime = record { lower = λ s. s; names_status = λ s. includes "401" s }

messages :
    (is_session_rejected runtime "502 bad gateway, 401 from upstream" ≡ false)
    × (is_session_rejected runtime "HTTP 401" ≡ true)
unfolding is_session_rejected
messages = (refl, refl)
