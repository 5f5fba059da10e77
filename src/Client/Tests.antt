-- ===== src/Client/Tests.antt =====
-- The theorem about the tables of a tab at two requests, of which one is answered and one expires.
use secure_collab_app.Prelude.{◌≡◌, refl, true, false, none, List, [], ◌∷◌}
use secure_collab_app.Exec.{ok}
use secure_collab_app.Worker.Protocol.{text}
use secure_collab_app.Client.{
  new_tab, pings, destroys_session, TabStep, sends, receives, times_out, tab_steps, send, receive,
  time_out,
}
use secure_collab_app.Client.Tables.{unsent, settles, promise_after, promise_of}
use secure_collab_app.Client.Promises.{tab_steps-promise_after}

abbrev two_requests : List TabStep
two_requests =
    sends (pings "b1") true none
    ∷ sends (destroys_session "@ann:x") false none
    ∷ receives 1 (ok (text "info"))
    ∷ times_out 1
    ∷ []

first_answered : promise_of 1 (tab_steps two_requests new_tab) ≡ settles (ok (text "info"))
unfolding send receive time_out
first_answered = refl

tab_steps-promise_after_example :
    promise_of 1 (tab_steps two_requests new_tab) ≡ promise_after 1 1 two_requests unsent
tab_steps-promise_after_example = tab_steps-promise_after 1 two_requests
