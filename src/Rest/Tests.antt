-- ===== src/Rest/Tests.antt =====
-- Witnesses and tests for the service.
use muondetector_cluster.Prelude.{
  ◌≡◌, ◌⊎◌, refl, true, false, ◌&&◌, [], ◌∷◌, ◌++◌, List, Text, All, arith,
}
use muondetector_cluster.Prelude.Texts.{codes, text_eq}
use muondetector_cluster.Source.Run.{Run, done, overflow}
use muondetector_cluster.Rest.{
  Request, Response, Platform, Handler, handler, Handlers, end, next, handle_path, handle_request,
  authorise, credentials, skip_empty, npos, http_response,
}
use muondetector_cluster.Rest.Trail.{trail, follow, handle_path-follow}
use muondetector_cluster.Rest.Guarded.{
  IsAccepted, IsRefused, handle_path-Guarded, handle_path-short,
}
use muondetector_cluster.Rest.Credentials.{credentials-join}
use muondetector_cluster.Rest.Session.{
  Session, idle, run, new_session, on_handshake, failed, handshakes, opened, then_step,
}
use muondetector_cluster.Rest.Session.Wakes.{IsAwaited, Reach-IsAwaited}

-- A platform that decodes nothing.
abbrev plain : Platform
plain = record { beast_version = codes "beast"; decode = done }

abbrev request : Text → Text → Request
request target authorization = record {
  target = target;
  version = 11;
  keep_alive = true;
  authorization = authorization;
}

abbrev answer : Request → List Text → Run Response
unfolding http_response
answer req path = done (http_response plain 200 req (codes "here"))

abbrev info : Handler
info = handler (λ s. done (text_eq s (codes "info"))) (λ req u v. overflow) answer end false

abbrev detectors : Handlers
detectors =
    next
      (handler (λ s. done (text_eq s (codes "detectors")))
        (λ req u v. done (text_eq u (codes "kai") && text_eq v (codes "pi"))) answer (next info end)
        true)
      end

abbrev good : Request
good = request (codes "//detectors/info") (codes "Basic kai:pi")

abbrev bare : Request
bare = request (codes "/detectors") []

abbrev short_one : Request
short_one = request (codes "/detectors") (codes "Basic")

good-answer : handle_request plain detectors good ≡ answer good []
unfolding answer handle_request authorise npos
good-answer = refl

bare-answer :
    handle_request plain detectors bare
    ≡ done (http_response plain 401 bare (codes "Need authorisation"))
unfolding handle_request authorise
bare-answer = refl

short_throws : handle_request plain detectors short_one ≡ overflow
unfolding handle_request authorise
short_throws = refl

handle_path-follow_example :
    handle_path plain good (codes "detectors" ∷ codes "info" ∷ []) detectors
    ≡ follow plain
        (trail plain detectors good (skip_empty (codes "detectors" ∷ codes "info" ∷ [])))
        good
handle_path-follow_example =
    handle_path-follow plain detectors good (codes "detectors" ∷ codes "info" ∷ [])

handle_path-Guarded_example :
    let (way, last) = trail plain detectors good (skip_empty (codes "detectors" ∷ [])) in
    All (IsAccepted plain good) way
      × (handle_path plain good (codes "detectors" ∷ []) detectors ≡ last)
    ⊎ IsRefused (handle_path plain good (codes "detectors" ∷ []) detectors)
handle_path-Guarded_example = handle_path-Guarded plain detectors good (codes "detectors" ∷ [])

credentials-join_example :
    (credentials (codes "kai" ++ b':' ∷ codes "a:b") ≡ done (codes "kai", codes "a:b"))
    × (credentials (codes "kai") ≡ done (codes "kai", codes "kai"))
unfolding npos
credentials-join_example =
    credentials-join (codes "kai") (codes "a:b") (omega arith, (omega arith, (omega arith, tt)))
      (omega arith)

abbrev answers : Request → Run Response
answers req = answer req []

-- A handshake that failed.
abbrev refused : Session
unfolding on_handshake run
refused = on_handshake failed (record (run new_session) { pending = idle })

Reach-IsAwaited_example : IsAwaited refused
unfolding refused
Reach-IsAwaited_example =
    Reach-IsAwaited answers refused
      (then_step opened (handshakes failed (run new_session) (unfold run in refl)))

handle_path-short_example :
    handle_path plain short_one (codes "detectors" ∷ []) detectors ≡ overflow
unfolding trail skip_empty
handle_path-short_example =
    handle_path-short plain detectors short_one (codes "detectors" ∷ []) _ _ _ _ [] refl
      (λ n. absurd (ground (arith, n))) (omega arith)
